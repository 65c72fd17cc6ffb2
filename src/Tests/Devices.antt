-- ===== src/Tests/Devices.antt =====
-- Fetching from small devices, and queries over the bytes of a configuration.
use libopenusb.Prelude.{
  ◌==◌, if◌then◌else◌, take, Holds-mid, pos, negsuc, is_neg, ℕ, ◌+◌, ◌≡◌, refl, inl, inr, true,
  false, Option, none, some, List, [], ◌∷◌, ◌++◌, arith,
}
use libopenusb.Codes.{success}
use libopenusb.Run.{ok}
use libopenusb.ParseData.Layout.{encode, layout}
use libopenusb.Descriptors.Tree.{
  ExtraDesc, encode_extras, interface_fields, config_fields, encode_interfaces, encode_config,
  config_of,
}
use libopenusb.Fetch.{Device, spare, fetch_config, fetch_configs}
use libopenusb.Fetch.Outcomes.{cached, fetch_configs-encode, zeros, ruined, fetch_config_unnoticed}
use libopenusb.Queries.{find_setting, usbi_nth_desc, openusb_parse_interface_desc}
use libopenusb.Queries.Walks.{SettingIn, find_setting_total, DescIn, nth_desc_total}
use libopenusb.Queries.Found.{parse_interface_desc-encode}
use libopenusb.Queries.Fixed.{
  DeviceDesc, openusb_parse_device_desc, openusb_parse_config_desc, device_fields,
  parse_device_desc-encode, parse_config_desc-encode,
}
use libopenusb.Queries.Configs.{
  usbi_get_cfg_value_by_index, usbi_get_cfg_index_by_value, cfg_index-value,
}
use libopenusb.Tests.Trees.{env, alt1, tree, tree-Ok}

-- A device that sends one configuration.
abbrev sending : Device
sending w n = record {
  ret = pos 0;
  status = pos 0;
  sent = if n == 8 then take 8 (encode_config tree) else encode_config tree;
}

fetch_configs-encode_example :
    fetch_configs env (λ _. true) sending [] 6 0 1 ≡ ok (some (cached tree ∷ []))
fetch_configs-encode_example =
    fetch_configs-encode env (λ _. true) sending [] 6 (λ _. refl) (λ _. refl) 0 (tree ∷ [])
      (tree-Ok, record { head = refl; whole = refl }, omega arith, tt)

-- A device that is unplugged after the first 8 bytes.
abbrev unplugged : Device
unplugged w n =
    if n == 8
    then record { ret = pos 0; status = pos 0; sent = take 8 (encode_config tree) }
    else record { ret = negsuc 61; status = pos 0; sent = [] }

fetch_config_unnoticed_example :
    fetch_config env (λ _. true) unplugged [] 6 0
    ≡ ok (some (record { bytes = zeros (40 + spare); len = 40 }, ruined))
fetch_config_unnoticed_example =
    fetch_config_unnoticed env (λ _. true) unplugged [] 6 0 61 (pos 0) tree (λ _. refl) (λ _. refl)
      tree-Ok refl refl

-- The bytes before the alternate setting 1: the configuration, setting 0 and its descriptor.
abbrev before : List ExtraDesc
before =
    record { kind = 2; payload = 40 ∷ 0 ∷ 1 ∷ 1 ∷ 0 ∷ 128 ∷ 50 ∷ [] }
    ∷ record { kind = 4; payload = 0 ∷ 0 ∷ 0 ∷ 3 ∷ 1 ∷ 1 ∷ 0 ∷ [] }
    ∷ record { kind = 33; payload = 7 ∷ [] }
    ∷ []

parse_interface_desc-encode_example :
    openusb_parse_interface_desc true (some (encode_config tree, 40)) (pos 0, []) 0 1
    ≡ ok (success, layout 0 (interface_fields alt1.desc))
parse_interface_desc-encode_example =
    parse_interface_desc-encode (encode_config tree) 40 0 1 (pos 0, []) before alt1.desc
      (
        inl (omega arith),
        (inr (0, 0, 0 ∷ 3 ∷ 1 ∷ 1 ∷ 0 ∷ [], refl, inr (omega arith)), (inl (omega arith), tt)),
      )
      refl refl refl
      (Holds-mid [] (encode_extras before ++ encode (interface_fields alt1.desc))
        (7 ∷ 5 ∷ 129 ∷ 3 ∷ 8 ∷ 0 ∷ 10 ∷ 3 ∷ 33 ∷ 7 ∷ []))
      (omega arith)

find_setting_total_example :
    (r : Option (ℕ × ℕ)) × (find_setting (encode_config tree) 0 1 4 41 0 40 ≡ ok r)
    × SettingIn (encode_config tree) 0 1 4 0 40 r
find_setting_total_example =
    find_setting_total (encode_config tree) 0 1 4 (omega arith) 41 0 40 (omega arith) (omega arith)

next_endpoint :
    (r : Option ℕ) × (usbi_nth_desc (encode_config tree) 21 19 5 0 4 ≡ ok r)
    × DescIn (encode_config tree) 5 21 19 r
next_endpoint = nth_desc_total (encode_config tree) 21 19 5 0 4 (omega arith)

abbrev mouse : DeviceDesc
mouse = record {
  b_length = 18;
  b_descriptor_type = 1;
  bcd_usb = 512;
  b_device_class = 0;
  b_device_sub_class = 0;
  b_device_protocol = 0;
  b_max_packet_size0 = 8;
  id_vendor = 1133;
  id_product = 49271;
  bcd_device = 28928;
  i_manufacturer = 1;
  i_product = 2;
  i_serial_number = 0;
  b_num_configurations = 1;
}

mouse_read :
    (openusb_parse_device_desc true (some (encode (device_fields mouse), 18)) (pos 0, [])
      ≡ ok (success, layout 0 (device_fields mouse)))
    × (openusb_parse_device_desc true none (pos 18, encode (device_fields mouse))
        ≡ ok (success, layout 0 (device_fields mouse)))
mouse_read =
    parse_device_desc-encode (encode (device_fields mouse)) (omega arith) mouse (pos 0, []) 18
      (omega arith, (omega arith, (omega arith, (omega arith, tt))))
      (Holds-mid [] (encode (device_fields mouse)) []) (omega arith)

config_desc_read :
    (openusb_parse_config_desc true (some (encode_config tree, 40)) (pos 0, [])
      ≡ ok (success, layout 0 (config_fields tree.desc)))
    × (openusb_parse_config_desc true none (pos 40, encode_config tree)
        ≡ ok (success, layout 0 (config_fields tree.desc)))
config_desc_read =
    parse_config_desc-encode (encode_config tree) (omega arith) tree.desc (pos 0, []) 40
      (omega arith)
      (Holds-mid [] (encode (config_fields tree.desc)) (encode_interfaces tree.interfaces))
      (omega arith)

cfg_index_run :
    (usbi_get_cfg_value_by_index
        (some (pos 0, config_of tree ∷ []))
        (usbi_get_cfg_index_by_value (some (pos 0, config_of tree ∷ [])) 1)
      ≡ 1)
    × (is_neg (usbi_get_cfg_index_by_value (some (pos 0, config_of tree ∷ [])) 1) ≡ false)
cfg_index_run = cfg_index-value (config_of tree ∷ []) 1
