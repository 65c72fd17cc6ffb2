-- ===== src/ParseData/Alignment.antt =====
-- `openusb_parse_data` of openusb/src/descriptors.c against the padding that openusb/src/openusb.h.in
-- describes: each member on its natural boundary.
use libopenusb.Prelude.{
  length, Holds, ℕ, ◌+◌, ◌-◌, ◌*◌, ◌/◌, ◌%◌, ◌^◌, ◌≤◌, ◌<◌, ◌≡◌, refl, ap, true, some, List, [],
  ◌∷◌, arith,
}
use libopenusb.Codes.{success}
use libopenusb.Run.{ok}
use libopenusb.ParseData.{num, Store, align_word, align_dword, openusb_parse_data}
use libopenusb.ParseData.Layout.{
  Field, byte, word, dword, InRange, format_of, encode, layout, parse_data-encode,
}

-- The first multiple of `size` from `dp` on
unfoldable pub round_up : ℕ → ℕ → ℕ
round_up size dp = (dp + (size - 1)) / size * size

-- The members of a structure from address `dp` on, each on a multiple of its size.
unfoldable pub structure : ℕ → List Field → List Store
unfolding round_up
structure dp [] = []
structure dp (byte v ∷ fs) = record { at = dp; value = num 1 v } ∷ structure (dp + 1) fs
structure dp (word v ∷ fs) =
    let place = round_up 2 dp in record { at = place; value = num 2 v } ∷ structure (place + 2) fs
structure dp (dword v ∷ fs) =
    let place = round_up 4 dp in record { at = place; value = num 4 v } ∷ structure (place + 4) fs

-- No dword follows a member that ends at an odd address.
unfoldable pub EvenDwords : ℕ → List Field → Type 0
unfolding round_up
EvenDwords dp [] = Unit {0}
EvenDwords dp (byte v ∷ fs) = EvenDwords (dp + 1) fs
EvenDwords dp (word v ∷ fs) = EvenDwords (round_up 2 dp + 2) fs
EvenDwords dp (dword v ∷ fs) = (dp % 2 ≡ 0) × EvenDwords (round_up 4 dp + 4) fs

align_word-round_up : (dp : ℕ) → align_word dp ≡ round_up 2 dp
unfolding round_up
align_word-round_up dp = omega arith

align_dword-round_up : (dp : ℕ) → dp % 2 ≡ 0 → align_dword dp ≡ round_up 4 dp
unfolding round_up
align_dword-round_up dp e = omega (arith, e)

layout-structure : (dp : ℕ) (fs : List Field) → EvenDwords dp fs → layout dp fs ≡ structure dp fs
unfolding structure EvenDwords
layout-structure dp [] h = refl
layout-structure dp (byte v ∷ fs) h =
    ap (λ ss. record { at = dp; value = num 1 v } ∷ ss) (layout-structure (dp + 1) fs h)
layout-structure dp (word v ∷ fs) h =
    let e = align_word-round_up dp in rw (e, layout-structure (round_up 2 dp + 2) fs h) refl
layout-structure dp (dword v ∷ fs) h =
    let e = align_dword-round_up dp h.0 in rw (e, layout-structure (round_up 4 dp + 4) fs h.1) refl

-- `openusb_parse_data` decodes what was encoded into a structure: where every word and dword is in
-- range, no dword follows a member that ends at an odd address, the block holds the encoding of the
-- fields at `source`, and both lengths suffice for the encoding, it returns success, has counted the
-- encoding's bytes, and has stored each field's value at the next multiple of the field's size, in
-- order, and nothing else.
pub parse_data-structure :
    (mem : List ℕ) (fs : List Field) (source sourcelen dest destlen : ℕ)
    → InRange fs
    → EvenDwords dest fs
    → Holds mem source (encode fs)
    → length (encode fs) ≤ sourcelen
    → length (encode fs) ≤ destlen
    → openusb_parse_data (some (format_of fs)) mem (some source) sourcelen (some dest) destlen true
      ≡ ok (record { ret = success; stores = structure dest fs; count = some (length (encode fs)) })
parse_data-structure mem fs source sourcelen dest destlen r v h s d =
    rw (← layout-structure dest fs v)
      (parse_data-encode mem fs source sourcelen dest destlen r h s d)

-- A dword behind a member that ends at an odd address is stored at an odd address, on no boundary.
pub parse_data-misplaced :
    (mem : List ℕ) (v source sourcelen dest destlen : ℕ)
    → v < 2 ^ 32
    → dest % 2 ≡ 1
    → Holds mem source (encode (dword v ∷ []))
    → 4 ≤ sourcelen
    → 4 ≤ destlen
    → (place : ℕ) × (place % 2 ≡ 1)
      × (openusb_parse_data
            (some (format_of (dword v ∷ [])))
            mem
            (some source)
            sourcelen
            (some dest)
            destlen
            true
          ≡ ok (record {
            ret = success;
            stores = record { at = place; value = num 4 v } ∷ [];
            count = some 4;
          }))
parse_data-misplaced mem v source sourcelen dest destlen r o h s d = (
  align_dword dest,
  omega (arith, o),
  parse_data-encode mem (dword v ∷ []) source sourcelen dest destlen (r, tt) h s d,
)
