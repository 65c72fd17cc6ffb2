-- ===== src/Queries/Fixed.antt =====
-- `openusb_parse_device_desc` and `openusb_parse_config_desc` of openusb/src/devices.c, which read the
-- descriptor at the beginning of their buffer.
use libopenusb.Prelude.{
  ge→ltb, codes, length, Holds, ℤ, pos, ℕ, ◌%◌, ◌^◌, ◌≤◌, ◌<◌, ◌≡◌, refl, inl, inr, Bool, true,
  Option, none, some, List, [], ◌∷◌, arith,
}
use libopenusb.Codes.{success}
use libopenusb.Run.{Run, ok, ◌>>=◌}
use libopenusb.ParseData.{Store, openusb_parse_data}
use libopenusb.ParseData.Layout.{Field, byte, word, InRange, encode, layout, parse_data-encode}
use libopenusb.Descriptors.{ConfigDesc}
use libopenusb.Descriptors.Tree.{config_fields}
use libopenusb.Queries.{query_buffer, checked_ret}

-- usb_device_desc_t
pub record DeviceDesc : Type 0 where
  pub b_length : ℕ
  pub b_descriptor_type : ℕ
  pub bcd_usb : ℕ
  pub b_device_class : ℕ
  pub b_device_sub_class : ℕ
  pub b_device_protocol : ℕ
  pub b_max_packet_size0 : ℕ
  pub id_vendor : ℕ
  pub id_product : ℕ
  pub bcd_device : ℕ
  pub i_manufacturer : ℕ
  pub i_product : ℕ
  pub i_serial_number : ℕ
  pub b_num_configurations : ℕ

-- The code, and what has been stored at `devdesc`.
unfoldable pub openusb_parse_device_desc :
    Bool → Option (List ℕ × ℕ) → ℤ × List ℕ → Run (ℤ × List Store)
openusb_parse_device_desc known buffer answer = query_buffer 18 known buffer answer >>= λ source.
    elim source [
      | inl e ↦ ok (e, [])
      | inr (mem, len) ↦
          openusb_parse_data (some (codes "bbwbbbbwwwbbbb")) mem (some 0) len (some 0) 18 true
          >>= λ p. ok (checked_ret 18 p, p.stores)
    ]

-- The code, and what has been stored at `cfgdesc`.
unfoldable pub openusb_parse_config_desc :
    Bool → Option (List ℕ × ℕ) → ℤ × List ℕ → Run (ℤ × List Store)
openusb_parse_config_desc known buffer answer = query_buffer 9 known buffer answer >>= λ source.
    elim source [
      | inl e ↦ ok (e, [])
      | inr (mem, len) ↦
          openusb_parse_data (some (codes "bbwbbbbb")) mem (some 0) len (some 0) 10 true >>= λ p.
          ok (checked_ret 9 p, p.stores)
    ]

abbrev pub device_fields : DeviceDesc → List Field
device_fields d =
    byte d.b_length
    ∷ byte d.b_descriptor_type
    ∷ word d.bcd_usb
    ∷ byte d.b_device_class
    ∷ byte d.b_device_sub_class
    ∷ byte d.b_device_protocol
    ∷ byte d.b_max_packet_size0
    ∷ word d.id_vendor
    ∷ word d.id_product
    ∷ word d.bcd_device
    ∷ byte d.i_manufacturer
    ∷ byte d.i_product
    ∷ byte d.i_serial_number
    ∷ byte d.b_num_configurations
    ∷ []

module _ (mem : List ℕ) (fits : length mem < 2 ^ 16) where
  -- The source of the bytes does not matter: the caller's buffer, or the raw descriptor.
  given :
      (least : ℕ) (answer : ℤ × List ℕ)
      → least ≤ length mem
      → query_buffer least true (some (mem, length mem)) answer ≡ ok (inr (mem, length mem))
  unfolding query_buffer
  given least answer le = rw (ge→ltb (length mem) least le) refl

  asked : (least r : ℕ) → query_buffer least true none (pos r, mem) ≡ ok (inr (mem, length mem))
  unfolding query_buffer
  asked least r = let kept : length mem % 2 ^ 16 ≡ length mem = grind arith in rw kept refl

  -- Whether the caller's buffer or the raw descriptor of fewer than 65536 bytes begins with the
  -- encoding of a device descriptor whose words are in range, `openusb_parse_device_desc` on a known handle
  -- returns success and has stored each member of the descriptor at its place, and nothing else.
  pub parse_device_desc-encode :
      (d : DeviceDesc) (answer : ℤ × List ℕ) (r : ℕ)
      → InRange (device_fields d)
      → Holds mem 0 (encode (device_fields d))
      → 18 ≤ length mem
      → (openusb_parse_device_desc true (some (mem, length mem)) answer
          ≡ ok (success, layout 0 (device_fields d)))
        × (openusb_parse_device_desc true none (pos r, mem)
            ≡ ok (success, layout 0 (device_fields d)))
  unfolding openusb_parse_device_desc checked_ret
  parse_device_desc-encode d answer r range h le =
      let read =
        parse_data-encode mem (device_fields d) 0 (length mem) 0 18 range h le (omega arith) in
      (rw (given 18 answer le, read) refl, rw (asked 18 r, read) refl)

  -- Whether the caller's buffer or the raw descriptor of fewer than 65536 bytes begins with the
  -- encoding of a configuration descriptor whose total length is in range,
  -- `openusb_parse_config_desc` on a known handle returns success and has stored each member of the
  -- descriptor at its place, and nothing else.
  pub parse_config_desc-encode :
      (d : ConfigDesc) (answer : ℤ × List ℕ) (r : ℕ)
      → d.w_total_length < 2 ^ 16
      → Holds mem 0 (encode (config_fields d))
      → 9 ≤ length mem
      → (openusb_parse_config_desc true (some (mem, length mem)) answer
          ≡ ok (success, layout 0 (config_fields d)))
        × (openusb_parse_config_desc true none (pos r, mem)
            ≡ ok (success, layout 0 (config_fields d)))
  unfolding openusb_parse_config_desc checked_ret
  parse_config_desc-encode d answer r range h le =
      let read =
        parse_data-encode mem (config_fields d) 0 (length mem) 0 10 (range, tt) h le
          (omega arith) in
      (rw (given 9 answer le, read) refl, rw (asked 9 r, read) refl)
