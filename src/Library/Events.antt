-- ===== src/Library/Events.antt =====
-- The settings of a library handle, and the queue of events (openusb/src/usb.c).
use libopenusb.Prelude.{
  leb, if◌then◌else◌, get_elem?, set, ℤ, ℕ, ◌+◌, ◌-◌, Bool, true, false, Option, none, some, List,
  [], ◌∷◌, ◌++◌,
}
use libopenusb.Codes.{success, badarg, invalid_handle}
use libopenusb.Run.{Run, ok, fault, ◌>>=◌}
use libopenusb.Transfers.{at}
use libopenusb.Library.{LibHandle, Library, event_types, usbi_find_handle}

-- A change of what is behind a handle's address, which is read for it
unfoldable pub with_handle : Library → ℕ → (LibHandle → LibHandle) → Run Library
with_handle lib p f = elim (lib.object p) [
  | none ↦ fault
  | some h ↦ ok (record lib { object = at lib.object p (some (f h)) })
]

-- coldplug_complete = 1, and the signal
unfoldable pub usbi_coldplug_complete : Option ℕ → Library → Run Library
unfolding with_handle
usbi_coldplug_complete none lib = ok lib
usbi_coldplug_complete (some p) lib = with_handle lib p (λ h. record h { coldplug_complete = true })

unfoldable pub openusb_set_event_callback : ℕ → ℕ → Option ℕ → ℕ → Library → Run (ℤ × Library)
unfolding usbi_coldplug_complete with_handle
openusb_set_event_callback n type callback arg lib = do
  found ← usbi_find_handle n lib
  elim found [
    | none ↦ ok (invalid_handle, lib)
    | some p ↦
        if leb event_types type
        then ok (badarg, lib)
        else with_handle lib p (λ h. record h {
          event_cbs = set h.event_cbs type (record { func = callback; arg = arg });
        })
          >>= λ lib1. usbi_coldplug_complete (some p) lib1 >>= λ lib2. ok (success, lib2)
  ]

unfoldable pub openusb_set_debug : ℕ → ℕ → ℕ → Option ℕ → Library → Run Library
unfolding with_handle
openusb_set_debug n level flags callback lib = do
  found ← usbi_find_handle n lib
  elim found [
    | none ↦ ok lib
    | some p ↦ with_handle lib p (λ h. record h {
      debug_cb = elim callback [ none ↦ h.debug_cb | some f ↦ some f ];
      debug_level = level;
      debug_flags = flags;
    })
  ]

-- `openusb_coldplug_callbacks_done`: it returns once the flag is set, and clears it. No thread sets
-- it in `none`.
unfoldable pub openusb_coldplug_callbacks_done : ℕ → Library → Run (Option Library)
unfolding with_handle
openusb_coldplug_callbacks_done n lib = do
  found ← usbi_find_handle n lib
  elim found [
    | none ↦ ok (some lib)
    | some p ↦ elim (lib.object p) [
      | none ↦ fault
      | some h ↦
          if h.coldplug_complete
          then (with_handle lib p (λ g. record g { coldplug_complete = false }) >>= λ lib1.
              ok (some lib1))
          else ok none
    ]
  ]

-- struct eventcallback, by the address of its library handle
pub record Event : Type 0 where
  pub devid : ℕ
  pub type : ℕ
  pub owner : ℕ

-- The list of events, and `callback_queue_full`
pub record EventQueue : Type 0 where
  pub events : List Event
  pub callback_queue_full : ℕ

unfoldable pub usbi_add_event_callback : Bool → Event → EventQueue → EventQueue
usbi_add_event_callback memory e q =
    if memory
    then record { events = q.events ++ e ∷ []; callback_queue_full = q.callback_queue_full + 1 }
    else q

-- A call of a callback: func(hdl->handle, devid, type, arg)
pub record Called : Type 0 where
  pub func : ℕ
  pub handle : ℕ
  pub devid : ℕ
  pub type : ℕ
  pub arg : ℕ

-- One event of the loop in `process_event_callbacks`
unfoldable pub event_call : Library → Event → Run (List Called)
event_call lib e = elim (lib.object e.owner) [
  | none ↦ fault
  | some h ↦ elim (get_elem? h.event_cbs e.type) [
    | none ↦ fault
    | some cb ↦ elim cb.func [
      | none ↦ ok []
      | some f ↦ ok (
          record { func = f; handle = h.handle; devid = e.devid; type = e.type; arg = cb.arg } ∷ [])
    ]
  ]
]

-- One pass over the list: the calls in their order, with the events all taken off.
unfoldable pub process_events : Library → List Event → ℕ → Run (List Called × EventQueue)
unfolding event_call
process_events lib [] full = ok ([], record { events = []; callback_queue_full = full })
process_events lib (e ∷ es) full = do
  now ← event_call lib e
  rest ← process_events lib es (full - 1)
  ok (now ++ rest.0, rest.1)
