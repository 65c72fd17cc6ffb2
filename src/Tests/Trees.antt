-- ===== src/Tests/Trees.antt =====
-- A configuration with one interface of two alternate settings, from its bytes.
use libopenusb.Prelude.{
  replicate, Holds-mid, pos, ℕ, ◌≡◌, refl, inl, inr, true, some, List, [], ◌∷◌, ◌++◌, arith,
}
use libopenusb.Run.{ok, fault}
use libopenusb.Descriptors.{Header, InterfaceDesc, Env, zero_endpoint, is_proper}
use libopenusb.Descriptors.Tree.{
  ExtraDesc, EndpointTree, AltTree, ConfigTree, encode_extras, encode_endpoint, encode_alts,
  encode_config, ExtraOk, All, EndpointOk, AltOk, endpoint_of, interface_of, config_of,
}
use libopenusb.Descriptors.Skip.{Skip, unchecked_loop, skip_extra}
use libopenusb.Descriptors.SkipRoundTrip.{skipped, skip_extra-encode}
use libopenusb.Descriptors.EndpointParser.{usbi_parse_endpoint}
use libopenusb.Descriptors.EndpointRoundTrip.{parse_endpoint-encode}
use libopenusb.Descriptors.AltCounter.{usbi_get_intf_altno}
use libopenusb.Descriptors.InterfaceParser.{usbi_parse_interface}
use libopenusb.Descriptors.ConfigParser.{zero_interface, zero_config, usbi_parse_configuration}
use libopenusb.Descriptors.AltCountLaws.{ScanOk, get_intf_altno-encode}
use libopenusb.Descriptors.AltOverread.{get_intf_altno_overread}
use libopenusb.Descriptors.InterfaceRoundTrip.{parse_interface-encode}
use libopenusb.Descriptors.ConfigRoundTrip.{ConfigOk, parse_configuration-encode}

abbrev pub env : Env
env = record { alloc = λ _. true; junk = record { b_length = 0; b_descriptor_type = 0 } }

abbrev hid : ExtraDesc
hid = record { kind = 33; payload = 7 ∷ [] }

abbrev endpoint : EndpointTree
endpoint = record {
  desc = record {
    b_length = 7;
    b_descriptor_type = 5;
    b_endpoint_address = 129;
    bm_attributes = 3;
    w_max_packet_size = 8;
    b_interval = 10;
    b_refresh = 0;
    b_synch_address = 0;
  };
  extras = hid ∷ [];
}

abbrev setting : ℕ → ℕ → InterfaceDesc
setting alt n = record {
  b_length = 9;
  b_descriptor_type = 4;
  b_interface_number = 0;
  b_alternate_setting = alt;
  b_num_endpoints = n;
  b_interface_class = 3;
  b_interface_sub_class = 1;
  b_interface_protocol = 1;
  i_interface = 0;
}

abbrev alt0 : AltTree
alt0 = record { desc = setting 0 0; extras = hid ∷ []; endpoints = [] }

abbrev pub alt1 : AltTree
alt1 = record { desc = setting 1 1; extras = []; endpoints = endpoint ∷ [] }

abbrev pub tree : ConfigTree
tree = record {
  desc = record {
    b_length = 9;
    b_descriptor_type = 2;
    w_total_length = 40;
    b_num_interfaces = 1;
    b_configuration_value = 1;
    i_configuration = 0;
    bm_attributes = 128;
    b_max_power = 50;
  };
  extras = [];
  interfaces = (alt0 ∷ alt1 ∷ []) ∷ [];
}

abbrev block : List ℕ
block = encode_config tree ++ replicate 8 0

hid-Ok : ExtraOk hid
unfolding is_proper
hid-Ok = (refl, omega arith)

endpoint-Ok : EndpointOk endpoint
endpoint-Ok = record {
  size = inr (refl, refl, refl);
  kind = refl;
  packet = omega arith;
  extras = (hid-Ok, tt);
  extra_size = omega arith;
}

alt0-Ok : AltOk 0 alt0
alt0-Ok = record {
  size = refl;
  kind = refl;
  number = refl;
  endpoint_count = refl;
  few = omega arith;
  extras = (hid-Ok, tt);
  endpoints = tt;
}

alt1-Ok : AltOk 0 alt1
alt1-Ok = record {
  size = refl;
  kind = refl;
  number = refl;
  endpoint_count = refl;
  few = omega arith;
  extras = tt;
  endpoints = (endpoint-Ok, tt);
}

pub tree-Ok : ConfigOk tree
tree-Ok = record {
  size = refl;
  total = refl;
  total_small = omega arith;
  count = refl;
  few = omega arith;
  extras = tt;
  interfaces = ((refl, (alt0-Ok, (alt1-Ok, tt)), (omega arith, tt)), tt);
  few_alts = omega arith;
}

parse_configuration-encode_example :
    usbi_parse_configuration env block 6 zero_config 0 40 ≡ ok (pos 0, config_of tree)
parse_configuration-encode_example =
    parse_configuration-encode env block (λ _. refl) tree 0 0 6 tree-Ok
      (Holds-mid [] (encode_config tree) (replicate 8 0)) refl (omega arith) (omega arith)

abbrev ifc_block : List ℕ
ifc_block = encode_alts (alt0 ∷ alt1 ∷ []) ++ replicate 8 0

parse_interface-encode_example :
    usbi_parse_interface env ifc_block 6 zero_interface 0 31
    ≡ ok (pos 31, interface_of (alt0 ∷ alt1 ∷ []))
parse_interface-encode_example =
    parse_interface-encode env ifc_block (λ _. refl) 0 alt0 (alt1 ∷ []) [] 0 31 0 6
      (alt0-Ok, (alt1-Ok, tt)) (omega arith, tt) tt
      (Holds-mid [] (encode_alts (alt0 ∷ alt1 ∷ [])) (replicate 8 0)) refl (omega arith) refl
      (omega arith) (omega arith) (inl refl) (omega arith) zero_interface

parse_endpoint-encode_example :
    usbi_parse_endpoint env (encode_endpoint endpoint) zero_endpoint 0 10
    ≡ ok (pos 10, endpoint_of endpoint)
parse_endpoint-encode_example =
    parse_endpoint-encode env (encode_endpoint endpoint) endpoint 0 10 (λ _. refl) endpoint-Ok
      (Holds-mid [] (encode_endpoint endpoint) []) (omega arith) (omega arith) (inl (omega arith))

abbrev at_start : Skip
at_start = record { buf = 0; buflen = 3; parsed = 9; extra_len = 0; header = env.junk }

skip_extra-encode_example :
    (h : Header) × (skip_extra unchecked_loop (encode_extras (hid ∷ [])) 2 at_start
      ≡ ok (some (skipped at_start 3 h)))
skip_extra-encode_example =
    skip_extra-encode unchecked_loop (encode_extras (hid ∷ [])) (hid ∷ []) 2 at_start (hid-Ok, tt)
      (Holds-mid [] (encode_extras (hid ∷ [])) []) (omega arith) (omega arith) (inl (omega arith))
      (omega arith)

abbrev scanned : List ExtraDesc
scanned = record { kind = 4; payload = 0 ∷ [] } ∷ hid ∷ record { kind = 4; payload = 0 ∷ [] } ∷ []

scanned-Ok : All ScanOk scanned
scanned-Ok = (
  (omega arith, λ _. omega arith),
  ((omega arith, λ _. omega arith), ((omega arith, λ _. omega arith), tt)),
)

get_intf_altno_run : usbi_get_intf_altno (encode_extras scanned ++ replicate 2 0) 4 0 9 ≡ ok 2
get_intf_altno_run =
    get_intf_altno-encode (encode_extras scanned ++ replicate 2 0) 4 0 9 4 0 0 []
      (hid ∷ record { kind = 4; payload = 0 ∷ [] } ∷ []) scanned-Ok
      (Holds-mid [] (encode_extras scanned) (replicate 2 0)) refl (omega arith) refl (omega arith)
      (omega arith)

get_intf_altno_overread_example : usbi_get_intf_altno (encode_extras scanned) 4 0 9 ≡ fault
get_intf_altno_overread_example =
    get_intf_altno_overread (encode_extras scanned) 4 0 9 4 0 []
      (hid ∷ record { kind = 4; payload = 0 ∷ [] } ∷ []) scanned-Ok
      (Holds-mid [] (encode_extras scanned) []) refl (omega arith) refl (omega arith)
