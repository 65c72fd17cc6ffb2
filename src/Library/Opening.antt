-- ===== src/Library/Opening.antt =====
-- Opening and closing devices, and aborting a request (openusb/src/usb.c). A device handle's memory is
-- an address, as a library handle's. What the allocator, the system and the backend answer is given.
use libopenusb.Prelude.{
  ◌==◌, if◌then◌else◌, replicate, ℤ, pos, negsuc, is_neg, ℕ, ◌+◌, ◌%◌, ◌^◌, Bool, false, not, ◌&&◌,
  ◌||◌, Option, none, some, List, [], ◌∷◌, ◌++◌,
}
use libopenusb.Codes.{success, no_resources, unknown_device, invalid_handle}
use libopenusb.Run.{Run, ok, fault, ◌>>=◌}
use libopenusb.Interfaces.{IfcSet, max_interfaces}
use libopenusb.Transfers.{XferOps, State, at, remove, io_at, usbi_free_io}
use libopenusb.Library.{Library, sys_func_failure, usbi_find_handle}

-- struct usbi_dev_handle, with the id of its device; its requests are in Transfers.
pub record OpenDev : Type 0 where
  pub handle : ℕ
  pub lib_hdl : ℕ
  pub devid : ℕ
  pub flags : ℕ
  pub claimed_ifs : List IfcSet

-- The library, the ids on usbi_devices, cur_dev_handle, and usbi_dev_handles
pub record Session : Type 0 where
  pub library : Library
  pub devids : List ℕ
  pub cur_dev_handle : ℕ
  pub dev_handles : List ℕ
  pub dev : ℕ → Option OpenDev

unfoldable pub listed : ℕ → List ℕ → Bool
listed x [] = false
listed x (y ∷ ys) = y == x || listed x ys

unfoldable pub usbi_find_device_by_id : ℕ → Session → Bool
unfolding listed
usbi_find_device_by_id devid s = not (s.library.inited == 0) && listed devid s.devids

-- The loop of `usbi_find_dev_handle`, by the addresses
unfoldable pub find_dev_in : (ℕ → Option OpenDev) → ℕ → List ℕ → Run (Option ℕ)
find_dev_in dev n [] = ok none
find_dev_in dev n (p ∷ ps) =
    let rest = find_dev_in dev n ps in
    elim (dev p) [ none ↦ fault | some h ↦ if h.handle == n then ok (some p) else rest ]

unfoldable pub find_open : ℕ → Session → Run (Option ℕ)
find_open n s = if s.library.inited == 0 then ok none else find_dev_in s.dev n s.dev_handles

-- What is answered on the way: the memory, the mutex, the pipe, `ops->open`, and then
-- `openusb_get_configuration`.
pub record Answers : Type 0 where
  pub memory : Option ℕ
  pub mutex : Bool
  pub pipe : Bool
  pub opened : ℤ
  pub configuration : ℤ

-- A device handle is taken off the list and freed.
unfoldable pub drop_open : ℕ → Session → Session
drop_open p s = record s { dev_handles = remove p s.dev_handles; dev = at s.dev p none }

-- From the memory on, for the library handle at an address
unfoldable pub open_at : Answers → ℕ → ℕ → ℕ → ℕ → Session → (ℤ × ℕ) × Session
unfolding drop_open
open_at a p hdl devid flags s =
    let n = s.cur_dev_handle in
    let s1 = record s { cur_dev_handle = (n + 1) % 2 ^ 64 } in
    if not a.mutex || not a.pipe
    then ((sys_func_failure, 0), s1)
    else if is_neg a.opened
    then ((a.opened, 0), s1)
    else let s2 = record s1 {
      dev_handles = s1.dev_handles ++ p ∷ [];
      dev = at s1.dev p (
          some (record {
            handle = n;
            lib_hdl = hdl;
            devid = devid;
            flags = flags;
            claimed_ifs =
                replicate max_interfaces (record { clm = negsuc 0; altsetting = negsuc 0 });
          }));
    } in
      elim a.configuration [
        | pos k ↦ if k == 0 then ((success, n), s2) else ((a.configuration, 0), drop_open p s2)
        | negsuc k ↦ ((a.configuration, 0), drop_open p s2)
      ]

-- The code and `*dev`, which is not a null pointer.
unfoldable pub openusb_open_device : Answers → ℕ → ℕ → ℕ → Session → Run ((ℤ × ℕ) × Session)
unfolding open_at
openusb_open_device a handle devid flags s = do
  hdl ← usbi_find_handle handle s.library
  elim hdl [
    | none ↦ ok ((invalid_handle, 0), s)
    | some h ↦
        if not (usbi_find_device_by_id devid s)
        then ok ((unknown_device, 0), s)
        else elim a.memory [
          | none ↦ ok ((no_resources, 0), s)
          | some p ↦ ok (open_at a p h devid flags s)
        ]
  ]

-- Each outstanding request is freed.
unfoldable pub free_ios : XferOps → List ℕ → State → Run State
free_ios ops [] s = ok s
free_ios ops (p ∷ ps) s = do s1 ← usbi_free_io ops (some p) s; free_ios ops ps s1

-- `ops` are the device's, with what `ops->close` answers if there is one; the requests are the device's.
unfoldable pub openusb_close_device :
    XferOps → Option ℤ → ℕ → Session → State → Run (ℤ × Session × State)
unfolding free_ios drop_open
openusb_close_device ops closed n s ios =
    if n == 0
    then ok (success, s, ios)
    else (find_open n s >>= λ found. elim found [
      | none ↦ ok (unknown_device, s, ios)
      | some p ↦ free_ios ops ios.io_head ios >>= λ ios1.
          ok (elim closed [ none ↦ success | some r ↦ r ], drop_open p s, ios1)
    ])

-- What is stored at `devid` and `lib_handle`, which are not null pointers.
unfoldable pub openusb_get_devid : ℕ → Session → Run (ℤ × Option ℕ)
openusb_get_devid n s = find_open n s >>= λ found. elim found [
  | none ↦ ok (unknown_device, none)
  | some p ↦ elim (s.dev p) [ none ↦ fault | some h ↦ ok (success, some h.devid) ]
]

unfoldable pub openusb_get_lib_handle : ℕ → Session → Run (ℤ × Option ℕ)
openusb_get_lib_handle n s = find_open n s >>= λ found. elim found [
  | none ↦ ok (unknown_device, none)
  | some p ↦ elim (s.dev p) [
    | none ↦ fault
    | some h ↦ elim (s.library.object h.lib_hdl) [
      | none ↦ fault
      | some l ↦ ok (success, some l.handle)
    ]
  ]
]

-- The I/O of a request on the list of a device
unfoldable pub find_request : State → ℕ → List ℕ → Run (Option ℕ)
unfolding io_at
find_request s r [] = ok none
find_request s r (p ∷ ps) =
    let rest = find_request s r ps in
    io_at s p >>= λ io. if io.req.id == r then ok (some p) else rest

-- The open devices with their operations; `io_cancel` is called without a test for NULL.
unfoldable pub openusb_abort : ℕ → List (XferOps × State) → Run (ℤ × List (XferOps × State))
openusb_abort r [] = ok (invalid_handle, [])
openusb_abort r ((ops, s) ∷ rest) =
    let later = openusb_abort r rest in
    find_request s r s.io_head >>= λ found. elim found [
      | none ↦ later >>= λ l. ok (l.0, (ops, s) ∷ l.1)
      | some p ↦ elim ops.io_cancel [
        | none ↦ fault
        | some f ↦ f p s >>= λ c. ok (c.0, (ops, c.1) ∷ rest)
      ]
    ]
