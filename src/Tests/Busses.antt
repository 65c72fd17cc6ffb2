-- ===== src/Tests/Busses.antt =====
-- Busses before and after a refresh, and a device that is searched by its class.
use libopenusb.Prelude.{
  ◌==◌, if◌then◌else◌, replicate, pos, negsuc, ℕ, ◌≤◌, ◌≡◌, refl, some, List, [], ◌∷◌, arith, true,
}
use libopenusb.Codes.{type_device}
use libopenusb.ParseData.Layout.{encode}
use libopenusb.Queries.Fixed.{DeviceDesc, device_fields}
use libopenusb.Devices.Search.{Raw, Wanted, usbi_match_class}
use libopenusb.Devices.Matching.{match_class-any_protocol}
use libopenusb.Codes.{type_device}
use libopenusb.Run.{ok}
use libopenusb.Devices.{Bus, System, usbi_add_bus, without_known, refresh_bus}
use libopenusb.Devices.Refreshing.{Rising, refresh_bus-Rising}
use libopenusb.Devices.Search.{Raw}

abbrev bus : ℕ → ℕ → Bus
bus id num = record {
  busid = id;
  busnum = num;
  sys_path = num;
  devices = [];
  max_xfer_size = replicate 5 0;
}

-- Bus 7 is gone, bus 8 is still there, and bus 9 is new.
abbrev system : System
system = record {
  buses = bus 1 7 ∷ bus 2 8 ∷ [];
  cur_bus_id = 3;
  devices = [];
  cur_device_id = 1;
  queue = record { events = []; callback_queue_full = 0 };
}

abbrev answer : List Bus
answer = bus 0 9 ∷ bus 0 8 ∷ []

system-Rising : Rising 1 3 (bus 1 7 ∷ bus 2 8 ∷ [])
unfolding Rising
system-Rising = (omega arith, omega arith, (omega arith, omega arith, tt))

refresh_run : (refresh_bus (some (pos 0, answer)) system).buses ≡ bus 2 8 ∷ bus 3 9 ∷ []
unfolding refresh_bus usbi_add_bus without_known
refresh_run = refl

refresh_bus-Rising_example :
    Rising 1
      (refresh_bus (some (pos 0, answer)) system).cur_bus_id
      (refresh_bus (some (pos 0, answer)) system).buses
    × ((refresh_bus (some (pos 0, answer)) system).cur_bus_id ≤ 5)
    × ((refresh_bus (some (pos 0, answer)) system).devices ≡ [])
refresh_bus-Rising_example =
    refresh_bus-Rising 0 answer system (omega arith) (omega arith) system-Rising

-- A device of class 3, subclass 1 and protocol 2, searched with protocol 1
abbrev keyboard : DeviceDesc
keyboard = record {
  b_length = 18;
  b_descriptor_type = 1;
  bcd_usb = 512;
  b_device_class = 3;
  b_device_sub_class = 1;
  b_device_protocol = 2;
  b_max_packet_size0 = 8;
  id_vendor = 1133;
  id_product = 2;
  bcd_device = 256;
  i_manufacturer = 0;
  i_product = 0;
  i_serial_number = 0;
  b_num_configurations = 1;
}

abbrev descriptors : Raw
descriptors type index =
    if type == type_device then (pos 18, encode (device_fields keyboard)) else (negsuc 0, [])

abbrev boot_protocol_1 : Wanted
boot_protocol_1 = record { devclass = some 3; subclass = some 1; protocol = some 1 }

match_class-any_protocol_example : usbi_match_class descriptors boot_protocol_1 ≡ ok true
match_class-any_protocol_example =
    match_class-any_protocol descriptors 18 keyboard boot_protocol_1 1 refl
      (omega arith, (omega arith, (omega arith, (omega arith, tt)))) refl refl refl (omega arith)
