-- ===== src/Descriptors/Tree.antt =====
-- Descriptors as a tree, the bytes that a device sends for it, and the structures that the parsers
-- should build from those bytes.
use libopenusb.Prelude.{
  leb, if◌then◌else◌, length, ℕ, ◌+◌, ◌^◌, ◌≤◌, ◌<◌, ◌≡◌, ◌⊎◌, false, List, [], ◌∷◌, ◌++◌, map,
}
use libopenusb.Codes.{type_interface, type_endpoint}
use libopenusb.ParseData.Layout.{Field, byte, word, encode}
use libopenusb.Descriptors.{
  EndpointDesc, InterfaceDesc, ConfigDesc, Slot, null, live, Endpoint, Altsetting, Interface,
  Config, is_proper,
}

-- A class or vendor specific descriptor: its type and what follows its header.
pub record ExtraDesc : Type 0 where
  pub kind : ℕ
  pub payload : List ℕ

pub record EndpointTree : Type 0 where
  pub desc : EndpointDesc
  pub extras : List ExtraDesc

pub record AltTree : Type 0 where
  pub desc : InterfaceDesc
  pub extras : List ExtraDesc
  pub endpoints : List EndpointTree

pub record ConfigTree : Type 0 where
  pub desc : ConfigDesc
  pub extras : List ExtraDesc
  pub interfaces : List (List AltTree)

abbrev pub encode_extra : ExtraDesc → List ℕ
encode_extra x = (length x.payload + 2) ∷ x.kind ∷ x.payload

abbrev pub encode_extras : List ExtraDesc → List ℕ
encode_extras [] = []
encode_extras (x ∷ xs) = encode_extra x ++ encode_extras xs

-- The bytes of the endpoint that both formats read.
abbrev pub endpoint_fields : EndpointDesc → List Field
endpoint_fields d =
    byte d.b_length
    ∷ byte d.b_descriptor_type
    ∷ byte d.b_endpoint_address
    ∷ byte d.bm_attributes
    ∷ word d.w_max_packet_size
    ∷ byte d.b_interval
    ∷ (if leb 9 d.b_length then byte d.b_refresh ∷ byte d.b_synch_address ∷ [] else [])

abbrev pub interface_fields : InterfaceDesc → List Field
interface_fields d =
    byte d.b_length
    ∷ byte d.b_descriptor_type
    ∷ byte d.b_interface_number
    ∷ byte d.b_alternate_setting
    ∷ byte d.b_num_endpoints
    ∷ byte d.b_interface_class
    ∷ byte d.b_interface_sub_class
    ∷ byte d.b_interface_protocol
    ∷ byte d.i_interface
    ∷ []

abbrev pub config_fields : ConfigDesc → List Field
config_fields d =
    byte d.b_length
    ∷ byte d.b_descriptor_type
    ∷ word d.w_total_length
    ∷ byte d.b_num_interfaces
    ∷ byte d.b_configuration_value
    ∷ byte d.i_configuration
    ∷ byte d.bm_attributes
    ∷ byte d.b_max_power
    ∷ []

abbrev pub encode_endpoint : EndpointTree → List ℕ
encode_endpoint e = encode (endpoint_fields e.desc) ++ encode_extras e.extras

abbrev pub encode_endpoints : List EndpointTree → List ℕ
encode_endpoints [] = []
encode_endpoints (e ∷ es) = encode_endpoint e ++ encode_endpoints es

abbrev pub encode_alt : AltTree → List ℕ
encode_alt a =
    encode (interface_fields a.desc) ++ (encode_extras a.extras ++ encode_endpoints a.endpoints)

abbrev pub encode_alts : List AltTree → List ℕ
encode_alts [] = []
encode_alts (a ∷ as') = encode_alt a ++ encode_alts as'

abbrev pub encode_interfaces : List (List AltTree) → List ℕ
encode_interfaces [] = []
encode_interfaces (i ∷ is) = encode_alts i ++ encode_interfaces is

abbrev pub encode_config : ConfigTree → List ℕ
encode_config c =
    encode (config_fields c.desc) ++ (encode_extras c.extras ++ encode_interfaces c.interfaces)

-- A skipped descriptor is no standard one, and its length is positive as a signed `char`.
abbrev pub ExtraOk : ExtraDesc → Type 0
ExtraOk x = (is_proper x.kind ≡ false) × (length x.payload + 2 < 128)

abbrev pub All {ℓ κ} : {A : Type ℓ} → (A → Type κ) → List A → Type κ
All P [] = Unit
All P (x ∷ xs) = P x × All P xs

-- A standard or an audio endpoint; the first has no refresh and synch address.
pub record EndpointOk (e : EndpointTree) : Type 0 where
  pub size :
      (e.desc.b_length ≡ 9)
      ⊎ ((e.desc.b_length ≡ 7) × (e.desc.b_refresh ≡ 0) × (e.desc.b_synch_address ≡ 0))
  pub kind : e.desc.b_descriptor_type ≡ type_endpoint
  pub packet : e.desc.w_max_packet_size < 2 ^ 16
  pub extras : All ExtraOk e.extras
  pub extra_size : length (encode_extras e.extras) < 2 ^ 16

pub record AltOk (ifc : ℕ) (a : AltTree) : Type 0 where
  pub size : a.desc.b_length ≡ 9
  pub kind : a.desc.b_descriptor_type ≡ type_interface
  pub number : a.desc.b_interface_number ≡ ifc
  pub endpoint_count : a.desc.b_num_endpoints ≡ length a.endpoints
  pub few : length a.endpoints ≤ 32
  pub extras : All ExtraOk a.extras
  pub endpoints : All EndpointOk a.endpoints

-- What a copied run of bytes becomes.
abbrev pub extra_slot : List ℕ → Slot (List ℕ)
extra_slot [] = null
extra_slot (b ∷ bs) = live (b ∷ bs)

abbrev pub endpoint_of : EndpointTree → Endpoint
endpoint_of e = record {
  desc = e.desc;
  extra = extra_slot (encode_extras e.extras);
  extralen = length (encode_extras e.extras);
}

abbrev pub altsetting_of : AltTree → Altsetting
altsetting_of a = record {
  desc = a.desc;
  num_endpoints = length a.endpoints;
  endpoints = live (map endpoint_of a.endpoints);
  extra = extra_slot (encode_extras a.extras);
  extralen = length (encode_extras a.extras);
}

abbrev pub interface_of : List AltTree → Interface
interface_of alts = record {
  num_altsettings = length alts;
  altsettings = live (map altsetting_of alts);
}

abbrev pub config_of : ConfigTree → Config
config_of c = record {
  desc = c.desc;
  num_interfaces = length c.interfaces;
  interfaces = live (map interface_of c.interfaces);
  extra = extra_slot (encode_extras c.extras);
  extralen = length (encode_extras c.extras);
}
