-- ===== src/Descriptors.antt =====
-- The descriptor structures of openusb/src/descr.h and openusb/src/openusb.h.in, and their members'
-- reading by `openusb_parse_data`, as openusb/src/descriptors.c does it. A structure starts at an
-- aligned address, so its members' offsets are those from 0.
pub mod Skip
pub mod EndpointParser
pub mod AltCounter
pub mod InterfaceParser
pub mod ConfigParser
pub mod Tree
pub mod Reading
pub mod SkipRoundTrip
pub mod EndpointRoundTrip
pub mod EndpointsLoop
pub mod AltRoundTrip
pub mod InterfaceLoop
pub mod AltCountLaws
pub mod AltOverread
pub mod Flatten
pub mod InterfaceRoundTrip
pub mod InterfacesLoop
pub mod ConfigRoundTrip
use libopenusb.Prelude.{
  ◌==◌, codes, ℕ, zero, suc, ◌+◌, ◌-◌, ◌%◌, Bool, true, ◌||◌, some, List, [], ◌∷◌,
}
use libopenusb.Codes.{type_device, type_config, type_interface, type_endpoint}
use libopenusb.Run.{Run, ok, ◌>>=◌, load}
use libopenusb.ParseData.{Store, openusb_parse_data, member}

-- struct usb_descriptor_header
pub record Header : Type 0 where
  pub b_length : ℕ
  pub b_descriptor_type : ℕ

-- struct usb_endpoint_desc
pub record EndpointDesc : Type 0 where
  pub b_length : ℕ
  pub b_descriptor_type : ℕ
  pub b_endpoint_address : ℕ
  pub bm_attributes : ℕ
  pub w_max_packet_size : ℕ
  pub b_interval : ℕ
  pub b_refresh : ℕ
  pub b_synch_address : ℕ

-- struct usb_interface_desc
pub record InterfaceDesc : Type 0 where
  pub b_length : ℕ
  pub b_descriptor_type : ℕ
  pub b_interface_number : ℕ
  pub b_alternate_setting : ℕ
  pub b_num_endpoints : ℕ
  pub b_interface_class : ℕ
  pub b_interface_sub_class : ℕ
  pub b_interface_protocol : ℕ
  pub i_interface : ℕ

-- struct usb_config_desc
pub record ConfigDesc : Type 0 where
  pub b_length : ℕ
  pub b_descriptor_type : ℕ
  pub w_total_length : ℕ
  pub b_num_interfaces : ℕ
  pub b_configuration_value : ℕ
  pub i_configuration : ℕ
  pub bm_attributes : ℕ
  pub b_max_power : ℕ

-- A pointer to a block: null, a live block, or one that was freed and is still pointed to.
pub data Slot {ℓ} (A : Type ℓ) : Type ℓ where
  null : Slot A
  live : A → Slot A
  freed : Slot A

-- struct usbi_endpoint
pub record Endpoint : Type 0 where
  pub desc : EndpointDesc
  pub extra : Slot (List ℕ)
  pub extralen : ℕ

-- struct usbi_altsetting
pub record Altsetting : Type 0 where
  pub desc : InterfaceDesc
  pub num_endpoints : ℕ
  pub endpoints : Slot (List Endpoint)
  pub extra : Slot (List ℕ)
  pub extralen : ℕ

-- struct usbi_interface
pub record Interface : Type 0 where
  pub num_altsettings : ℕ
  pub altsettings : Slot (List Altsetting)

-- struct usbi_config
pub record Config : Type 0 where
  pub desc : ConfigDesc
  pub num_interfaces : ℕ
  pub interfaces : Slot (List Interface)
  pub extra : Slot (List ℕ)
  pub extralen : ℕ

-- What the parsers ask of `calloc`.
pub data Block : Type 0 where
  extra_bytes : ℕ → Block
  altsetting_array : ℕ → Block
  endpoint_array : ℕ → Block
  interface_array : ℕ → Block

-- What a parser takes from outside: the answers of `calloc`, which are those of the size of the
-- block alone (true if it is not null), and what its uninitialised `header` holds.
pub record Env : Type 0 where
  pub alloc : Block → Bool
  pub junk : Header

abbrev pub zero_endpoint_desc : EndpointDesc
zero_endpoint_desc = record {
  b_length = 0;
  b_descriptor_type = 0;
  b_endpoint_address = 0;
  bm_attributes = 0;
  w_max_packet_size = 0;
  b_interval = 0;
  b_refresh = 0;
  b_synch_address = 0;
}

abbrev pub zero_endpoint : Endpoint
zero_endpoint = record { desc = zero_endpoint_desc; extra = null; extralen = 0 }

-- A format read into a structure of `size` bytes, its return code ignored: the stores made.
unfoldable pub stores_of : List ℕ → List ℕ → ℕ → ℕ → ℕ → Run (List Store)
stores_of format mem buf buflen size = do
  p ← openusb_parse_data (some format) mem (some buf) buflen (some 0) size true
  ok p.stores

-- openusb_parse_data("bb", buf, buflen, &header, sizeof(header), &count)
unfoldable pub read_header : List ℕ → ℕ → ℕ → Header → Run Header
unfolding stores_of
read_header mem buf buflen old = do
  ss ← stores_of (codes "bb") mem buf buflen 2
  ok (record {
    b_length = member old.b_length 0 ss;
    b_descriptor_type = member old.b_descriptor_type 1 ss;
  })

-- The two formats of `usbi_parse_endpoint`; what a store does not reach keeps its value.
unfoldable pub read_endpoint_desc : List ℕ → List ℕ → ℕ → ℕ → EndpointDesc → Run EndpointDesc
unfolding stores_of
read_endpoint_desc format mem buf buflen old = do
  ss ← stores_of format mem buf buflen 10
  ok (record {
    b_length = member old.b_length 0 ss;
    b_descriptor_type = member old.b_descriptor_type 1 ss;
    b_endpoint_address = member old.b_endpoint_address 2 ss;
    bm_attributes = member old.bm_attributes 3 ss;
    w_max_packet_size = member old.w_max_packet_size 4 ss;
    b_interval = member old.b_interval 6 ss;
    b_refresh = member old.b_refresh 7 ss;
    b_synch_address = member old.b_synch_address 8 ss;
  })

-- openusb_parse_data("bbbbbbbbb", ...) into an interface descriptor that is zero before
unfoldable pub read_interface_desc : List ℕ → ℕ → ℕ → Run InterfaceDesc
unfolding stores_of
read_interface_desc mem buf buflen = do
  ss ← stores_of (codes "bbbbbbbbb") mem buf buflen 9
  ok (record {
    b_length = member 0 0 ss;
    b_descriptor_type = member 0 1 ss;
    b_interface_number = member 0 2 ss;
    b_alternate_setting = member 0 3 ss;
    b_num_endpoints = member 0 4 ss;
    b_interface_class = member 0 5 ss;
    b_interface_sub_class = member 0 6 ss;
    b_interface_protocol = member 0 7 ss;
    i_interface = member 0 8 ss;
  })

-- openusb_parse_data("bbwbbbbb", ...)
unfoldable pub read_config_desc : List ℕ → ℕ → ℕ → ConfigDesc → Run ConfigDesc
unfolding stores_of
read_config_desc mem buf buflen old = do
  ss ← stores_of (codes "bbwbbbbb") mem buf buflen 10
  ok (record {
    b_length = member old.b_length 0 ss;
    b_descriptor_type = member old.b_descriptor_type 1 ss;
    w_total_length = member old.w_total_length 2 ss;
    b_num_interfaces = member old.b_num_interfaces 4 ss;
    b_configuration_value = member old.b_configuration_value 5 ss;
    i_configuration = member old.i_configuration 6 ss;
    bm_attributes = member old.bm_attributes 7 ss;
    b_max_power = member old.b_max_power 8 ss;
  })

-- The descriptor types at which a parser stops to skip.
unfoldable pub is_proper : ℕ → Bool
is_proper t = t == type_endpoint || t == type_interface || t == type_config || t == type_device

-- a -= b on an unsigned integer of that many values, for b ≤ modulus
abbrev pub wrap_sub : ℕ → ℕ → ℕ → ℕ
wrap_sub modulus a b = (a + modulus - b) % modulus

-- memcpy of `n` bytes from `p`
unfoldable pub copy_bytes : List ℕ → ℕ → ℕ → Run (List ℕ)
copy_bytes mem p zero = ok []
copy_bytes mem p (suc n) = do b ← load mem p; bs ← copy_bytes mem (p + 1) n; ok (b ∷ bs)
