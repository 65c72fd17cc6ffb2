-- ===== src/Devices.antt =====
-- The lists of busses and devices, openusb/src/devices.c: adding and removing them, comparing them
-- with what a backend finds, and the lists of ids that a program asks for. A bus and a device are
-- found by their ids; their memory is not modelled, and what the backends find is given.
pub mod Search
pub mod Refreshing
pub mod Matching
use libopenusb.Prelude.{
  leb, ◌==◌, if◌then◌else◌, get_elem?, ℤ, is_neg, ℕ, ◌+◌, ◌%◌, ◌^◌, Bool, not, ◌||◌, Option, none,
  some, List, [], ◌∷◌, ◌++◌, map,
}
use libopenusb.Codes.{success, no_resources, badarg, unknown_device, invalid_handle, null_list}
use libopenusb.Run.{Run, ok, fault}
use libopenusb.Library.Events.{Event, EventQueue, usbi_add_event_callback}

-- struct usbi_bus; a path is a number, and equal paths are equal numbers.
pub record Bus : Type 0 where
  pub busid : ℕ
  pub busnum : ℕ
  pub sys_path : ℕ
  pub devices : List ℕ
  pub max_xfer_size : List ℕ

-- usbi_buses, cur_bus_id, the ids on usbi_devices, cur_device_id, and the queue of events
pub record System : Type 0 where
  pub buses : List Bus
  pub cur_bus_id : ℕ
  pub devices : List ℕ
  pub cur_device_id : ℕ
  pub queue : EventQueue

unfoldable pub usbi_find_bus_by_id : ℕ → List Bus → Option Bus
usbi_find_bus_by_id busid [] = none
usbi_find_bus_by_id busid (b ∷ bs) =
    let rest = usbi_find_bus_by_id busid bs in if b.busid == busid then some b else rest

unfoldable pub usbi_find_bus_by_num : ℕ → List Bus → Option Bus
usbi_find_bus_by_num busnum [] = none
usbi_find_bus_by_num busnum (b ∷ bs) =
    let rest = usbi_find_bus_by_num busnum bs in if b.busnum == busnum then some b else rest

-- A new bus gets the next id and no devices.
unfoldable pub usbi_add_bus : Bus → System → System
usbi_add_bus b sys = record sys {
  buses = sys.buses ++ record b { busid = sys.cur_bus_id; devices = [] } ∷ [];
  cur_bus_id = (sys.cur_bus_id + 1) % 2 ^ 64;
}

-- One event for each library handle, given by their addresses
unfoldable pub notify : List ℕ → Bool → ℕ → ℕ → EventQueue → EventQueue
notify [] memory devid type q = q
notify (h ∷ hs) memory devid type q =
    notify hs memory devid type
      (usbi_add_event_callback memory (record { devid = devid; type = type; owner = h }) q)

-- USB_ATTACH and USB_REMOVE
abbrev pub usb_attach : ℕ
usb_attach = 0

abbrev pub usb_remove : ℕ
usb_remove = 1

-- The devices of one bus changed
unfoldable pub on_bus : ℕ → (List ℕ → List ℕ) → List Bus → List Bus
on_bus busid f [] = []
on_bus busid f (b ∷ bs) =
    let rest = on_bus busid f bs in
    if b.busid == busid then record b { devices = f b.devices } ∷ rest else b ∷ rest

unfoldable pub drop_id : ℕ → List ℕ → List ℕ
drop_id x [] = []
drop_id x (y ∷ ys) = let rest = drop_id x ys in if y == x then rest else y ∷ rest

unfoldable pub usbi_add_device : List ℕ → Bool → ℕ → System → System
unfolding on_bus notify
usbi_add_device handles memory busid sys = record sys {
  cur_device_id = (sys.cur_device_id + 1) % 2 ^ 64;
  buses = on_bus busid (λ ds. ds ++ sys.cur_device_id ∷ []) sys.buses;
  devices = sys.devices ++ sys.cur_device_id ∷ [];
  queue = notify handles memory sys.cur_device_id usb_attach sys.queue;
}

unfoldable pub without_device : ℕ → Bus → Bus
unfolding drop_id
without_device devid b = record b { devices = drop_id devid b.devices }

-- The device is on the list of one bus, and taken off it.
unfoldable pub usbi_remove_device : List ℕ → Bool → ℕ → System → System
unfolding drop_id without_device notify
usbi_remove_device handles memory devid sys = record sys {
  buses = map (λ (b : Bus). without_device devid b) sys.buses;
  devices = drop_id devid sys.devices;
  queue = notify handles memory devid usb_remove sys.queue;
}

-- The code and the array of ids, with its length; none is stored on an error.
unfoldable pub id_list : Bool → List ℕ → ℤ × List ℕ
id_list memory [] = (null_list, [])
id_list memory (x ∷ xs) = if memory then (success, x ∷ xs) else (no_resources, [])

-- The pointers are not null, and the pointer at `busids` is, as it has to be.
unfoldable pub openusb_get_busid_list : Bool → Bool → System → ℤ × List ℕ
unfolding id_list
openusb_get_busid_list known memory sys =
    if known then id_list memory (map (λ (b : Bus). b.busid) sys.buses) else (invalid_handle, [])

-- Bus 0 stands for all devices of the system.
unfoldable pub openusb_get_devids_by_bus : Bool → Bool → ℕ → System → ℤ × List ℕ
unfolding id_list usbi_find_bus_by_id
openusb_get_devids_by_bus known memory busid sys =
    if not known
    then (invalid_handle, [])
    else if busid == 0
    then id_list memory sys.devices
    else elim (usbi_find_bus_by_id busid sys.buses) [
      | none ↦ (unknown_device, [])
      | some b ↦ id_list memory b.devices
    ]

-- What is stored at `bytes`, which may be null.
unfoldable pub openusb_get_max_xfer_size : Bool → Bool → ℕ → ℕ → System → Run (ℤ × Option ℕ)
unfolding usbi_find_bus_by_id
openusb_get_max_xfer_size known given busid type sys =
    if not known then ok (invalid_handle, none) else elim (usbi_find_bus_by_id busid sys.buses) [
      | none ↦ ok (unknown_device, none)
      | some b ↦
          if type == 0 || leb 5 type
          then ok (badarg, none)
          else if not given
          then ok (badarg, none)
          else elim (get_elem? b.max_xfer_size type) [
            | none ↦ fault
            | some n ↦ ok (success, some n)
          ]
    ]

-- The search of the new list for a bus that is known: the new list without it, if it is there.
unfoldable pub without_known : Bus → List Bus → Option (List Bus)
without_known b [] = none
without_known b (n ∷ ns) =
    let rest = without_known b ns in
    if b.busnum == n.busnum || b.sys_path == n.sys_path
    then some ns
    else elim rest [ none ↦ none | some l ↦ some (n ∷ l) ]

-- The known busses that are still there, and the new ones that are left.
unfoldable pub compare_buses : List Bus → List Bus → List Bus × List Bus
compare_buses [] found = ([], found)
compare_buses (b ∷ bs) found = elim (without_known b found) [
  | none ↦ compare_buses bs found
  | some rest ↦ let r = compare_buses bs rest in (b ∷ r.0, r.1)
]

unfoldable pub add_buses : List Bus → System → System
add_buses [] sys = sys
add_buses (b ∷ bs) sys = add_buses bs (usbi_add_bus b sys)

-- `answer` is what `find_buses` returns and the list that it fills; a backend may be without it.
unfoldable pub refresh_bus : Option (ℤ × List Bus) → System → System
unfolding compare_buses add_buses
refresh_bus none sys = sys
refresh_bus (some (ret, found)) sys =
    if is_neg ret
    then sys
    else let r = compare_buses sys.buses found in add_buses r.1 (record sys { buses = r.0 })

unfoldable pub usbi_refresh_busses : List (Option (ℤ × List Bus)) → System → System
usbi_refresh_busses [] sys = sys
usbi_refresh_busses (a ∷ rest) sys = usbi_refresh_busses rest (refresh_bus a sys)
