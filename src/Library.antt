-- ===== src/Library.antt =====
-- The instances of the library, openusb/src/usb.c: `openusb_init` and `openusb_fini`, the list of the
-- library handles, and what they hold. A handle's memory is an address; nothing is behind one that is
-- freed, and reading it is a fault. What the common part, the allocator and the backends answer is
-- given.
pub mod Numbers
pub mod Instances
pub mod Endings
pub mod Events
pub mod Errors
pub mod Opening
use libopenusb.Prelude.{
  ◌==◌, if◌then◌else◌, replicate, ℤ, pos, negsuc, is_neg, ℕ, zero, suc, ◌+◌, ◌-◌, ◌%◌, ◌^◌, Bool,
  true, false, Option, none, some, List, [], ◌∷◌, ◌++◌,
}
use libopenusb.Codes.{success, platform_failure}
use libopenusb.Run.{Run, ok, fault, ◌>>=◌}
use libopenusb.Transfers.{at, remove}

-- struct usbi_event_callback; a function is a number, and NULL is none.
pub record EventCallback : Type 0 where
  pub func : Option ℕ
  pub arg : ℕ

-- struct usbi_handle; its list of completed requests is in Transfers, its timeouts in Timeouts.
pub record LibHandle : Type 0 where
  pub handle : ℕ
  pub debug_level : ℕ
  pub debug_flags : ℕ
  pub debug_cb : Option ℕ
  pub event_cbs : List EventCallback
  pub coldplug_complete : Bool

-- usbi_inited, cur_handle and usbi_handles
pub record Library : Type 0 where
  pub inited : ℕ
  pub cur_handle : ℕ
  pub handles : List ℕ
  pub object : ℕ → Option LibHandle

-- OPENUSB_SYS_FUNC_FAILURE
abbrev pub sys_func_failure : ℤ
sys_func_failure = negsuc 12

abbrev pub no_event : EventCallback
no_event = record { func = none; arg = 0 }

-- OPENUSB_EVENT_TYPE_COUNT
abbrev pub event_types : ℕ
event_types = 7

-- The loop of `usbi_find_handle`
unfoldable pub find_in : (ℕ → Option LibHandle) → ℕ → List ℕ → Run (Option ℕ)
find_in object n [] = ok none
find_in object n (p ∷ ps) =
    let rest = find_in object n ps in
    elim (object p) [ none ↦ fault | some h ↦ if h.handle == n then ok (some p) else rest ]

unfoldable pub usbi_find_handle : ℕ → Library → Run (Option ℕ)
usbi_find_handle n lib = if lib.inited == 0 then ok none else find_in lib.object n lib.handles

-- With new memory, if there is some, a mutex, if there is one, and OPENUSB_DEBUG's level.
unfoldable pub usbi_init_handle : Option ℕ → Bool → ℕ → Library → Option ℕ × Library
usbi_init_handle none mutex debug lib = (none, lib)
usbi_init_handle (some p) false debug lib = (none, lib)
usbi_init_handle (some p) true debug lib = (
  some p,
  record lib {
    cur_handle = (lib.cur_handle + 1) % 2 ^ 64;
    handles = lib.handles ++ p ∷ [];
    object = at lib.object p (
        some (record {
          handle = lib.cur_handle;
          debug_level = debug;
          debug_flags = 0;
          debug_cb = none;
          event_cbs = replicate event_types no_event;
          coldplug_complete = false;
        }));
  },
)

unfoldable pub usbi_destroy_handle : Option ℕ → Library → Library
usbi_destroy_handle none lib = lib
usbi_destroy_handle (some p) lib = record lib {
  handles = remove p lib.handles;
  object = at lib.object p none;
}

-- Did every backend fail? A backend that succeeds returns 0. Without backends all have failed.
unfoldable pub all_failed : List ℤ → Bool
all_failed [] = true
all_failed (pos zero ∷ rs) = false
all_failed (pos (suc n) ∷ rs) = all_failed rs
all_failed (negsuc n ∷ rs) = all_failed rs

-- `usbi_init_common` makes new lists, if it succeeds.
unfoldable pub init_common : ℤ → Library → ℤ × Library
init_common r lib = (r, if is_neg r then lib else record lib { handles = [] })

-- The code and `*handle`: `common` is the answer of `usbi_init_common`, `inits` those of the backends.
-- On failure of all backends the handle is freed where it stands on the list.
unfoldable pub openusb_init : ℤ → Option ℕ → Bool → ℕ → List ℤ → Library → (ℤ × ℕ) × Library
unfolding init_common
openusb_init common memory mutex debug inits lib =
    let (ret, lib1) = if lib.inited == 0 then init_common common lib else (success, lib) in
    if is_neg ret
    then ((ret, 0), lib1)
    else let lib2 = record lib1 { inited = lib1.inited + 1 } in
      let (made, lib3) = usbi_init_handle memory mutex debug lib2 in
      elim made [
        | none ↦ ((sys_func_failure, 0), record lib3 { inited = lib3.inited - 1 })
        | some p ↦
            if all_failed inits
            then (
              (platform_failure, 0),
              record lib3 { inited = lib3.inited - 1; object = at lib3.object p none },
            )
            else ((success, lib2.cur_handle), lib3)
      ]

unfoldable pub openusb_fini : ℕ → Library → Run Library
openusb_fini n lib = do
  found ← usbi_find_handle n lib
  elim found [
    | none ↦ ok lib
    | some p ↦
        let lib1 = usbi_destroy_handle (some p) lib in ok (record lib1 { inited = lib1.inited - 1 })
  ]
