-- ===== src/Descriptors/Reading.antt =====
-- The structures that the formats read, from a block that holds their encodings.
use libopenusb.Prelude.{
  leb, length, Holds, ℕ, ◌^◌, ◌≤◌, ◌<◌, ◌≡◌, refl, inl, inr, true, false, List, [], ◌∷◌, arith,
}
use libopenusb.Run.{ok}
use libopenusb.ParseData.{parse_step, parse_loop, openusb_parse_data}
use libopenusb.ParseData.Layout.{
  Field, byte, word, InRange, format_of, encode, layout, parse_data-encode,
}
use libopenusb.Descriptors.{
  Header, EndpointDesc, InterfaceDesc, ConfigDesc, zero_endpoint_desc, stores_of, read_header,
  read_endpoint_desc, read_interface_desc, read_config_desc,
}
use libopenusb.Descriptors.Tree.{
  EndpointTree, endpoint_fields, interface_fields, config_fields, EndpointOk,
}
use libopenusb.Descriptors.EndpointParser.{endpoint_format}

module _ (mem : List ℕ) (buf buflen : ℕ) where
  stores_of-encode :
      (fs : List Field) (size : ℕ)
      → InRange fs
      → Holds mem buf (encode fs)
      → length (encode fs) ≤ buflen
      → length (encode fs) ≤ size
      → stores_of (format_of fs) mem buf buflen size ≡ ok (layout 0 fs)
  unfolding stores_of
  stores_of-encode fs size r h s d = rw (parse_data-encode mem fs buf buflen 0 size r h s d)

  pub read_header-Holds :
      (b t : ℕ) (old : Header)
      → Holds mem buf (b ∷ t ∷ [])
      → 2 ≤ buflen
      → read_header mem buf buflen old ≡ ok (record { b_length = b; b_descriptor_type = t })
  unfolding read_header
  read_header-Holds b t old h n =
      rw (stores_of-encode (byte b ∷ byte t ∷ []) 2 tt h n (omega arith))

  pub read_interface_desc-Holds :
      (d : InterfaceDesc)
      → Holds mem buf (encode (interface_fields d))
      → 9 ≤ buflen
      → read_interface_desc mem buf buflen ≡ ok d
  unfolding read_interface_desc
  read_interface_desc-Holds d h n =
      rw (stores_of-encode (interface_fields d) 9 tt h n (omega arith))

  pub read_config_desc-Holds :
      (d old : ConfigDesc)
      → d.w_total_length < 2 ^ 16
      → Holds mem buf (encode (config_fields d))
      → 9 ≤ buflen
      → read_config_desc mem buf buflen old ≡ ok d
  unfolding read_config_desc
  read_config_desc-Holds d old r h n =
      rw (stores_of-encode (config_fields d) 10 (r, tt) h n (omega arith))

  audio-Holds :
      (d : EndpointDesc)
      → leb 9 d.b_length ≡ true
      → d.w_max_packet_size < 2 ^ 16
      → Holds mem buf (encode (endpoint_fields d))
      → 9 ≤ buflen
      → read_endpoint_desc (endpoint_format d.b_length) mem buf buflen zero_endpoint_desc ≡ ok d
  unfolding read_endpoint_desc endpoint_format
  audio-Holds d t r h n =
      let fs =
        byte d.b_length
        ∷ byte d.b_descriptor_type
        ∷ byte d.b_endpoint_address
        ∷ byte d.bm_attributes
        ∷ word d.w_max_packet_size
        ∷ byte d.b_interval
        ∷ byte d.b_refresh
        ∷ byte d.b_synch_address
        ∷ [] in
      let h' : Holds mem buf (encode fs) = rw t at h in
      rw t (rw (stores_of-encode fs 10 (r, tt) h' n (omega arith)))

  standard-Holds :
      (d : EndpointDesc)
      → leb 9 d.b_length ≡ false
      → d.w_max_packet_size < 2 ^ 16
      → d.b_refresh ≡ 0
      → d.b_synch_address ≡ 0
      → Holds mem buf (encode (endpoint_fields d))
      → 7 ≤ buflen
      → read_endpoint_desc (endpoint_format d.b_length) mem buf buflen zero_endpoint_desc ≡ ok d
  unfolding read_endpoint_desc endpoint_format
  standard-Holds d t r er es h n =
      let fs =
        byte d.b_length
        ∷ byte d.b_descriptor_type
        ∷ byte d.b_endpoint_address
        ∷ byte d.bm_attributes
        ∷ word d.w_max_packet_size
        ∷ byte d.b_interval
        ∷ [] in
      let h' : Holds mem buf (encode fs) = rw t at h in
      rw t (rw (stores_of-encode fs 10 (r, tt) h' n (omega arith)) (cc (er, es)))

  pub read_endpoint_desc-Holds :
      (e : EndpointTree)
      → EndpointOk e
      → Holds mem buf (encode (endpoint_fields e.desc))
      → e.desc.b_length ≤ buflen
      → read_endpoint_desc (endpoint_format e.desc.b_length) mem buf buflen zero_endpoint_desc
        ≡ ok e.desc
  read_endpoint_desc-Holds e v h n = elim v.size [
    | inl nine ↦ audio-Holds e.desc (ground arith) v.packet h (omega arith)
    | inr (seven, er, es) ↦ standard-Holds e.desc (ground arith) v.packet er es h (omega arith)
  ]

-- With nothing left the header keeps what it held.
pub read_header-zero : (mem : List ℕ) (buf : ℕ) (old : Header) → read_header mem buf 0 old ≡ ok old
unfolding read_header openusb_parse_data parse_loop parse_step
read_header-zero mem buf old = refl
