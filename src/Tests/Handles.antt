-- ===== src/Tests/Handles.antt =====
-- Instances of the library: one that is open, a second, and one that does not come about.
use libopenusb.Prelude.{
  ◌==◌, if◌then◌else◌, replicate, pos, negsuc, ◌≡◌, refl, true, false, none, some, [], ◌∷◌, arith,
}
use libopenusb.Codes.{success, platform_failure}
use libopenusb.Run.{ok, fault}
use libopenusb.Library.{
  LibHandle, Library, no_event, event_types, find_in, usbi_find_handle, usbi_init_handle,
  all_failed, openusb_init, openusb_fini,
}
use libopenusb.Library.Numbers.{Numbered}
use libopenusb.Library.Instances.{IsOpen, init-find}
use libopenusb.Library.Endings.{fini-forgets, init-dangles}

-- Nothing open, and one instance with number 1 at address 40
abbrev unused : Library
unused = record { inited = 0; cur_handle = 1; handles = []; object = λ _. none }

abbrev instance_1 : LibHandle
instance_1 = record {
  handle = 1;
  debug_level = 0;
  debug_flags = 0;
  debug_cb = none;
  event_cbs = replicate event_types no_event;
  coldplug_complete = false;
}

abbrev one_open : Library
one_open = record {
  inited = 1;
  cur_handle = 2;
  handles = 40 ∷ [];
  object = λ p. if p == 40 then some instance_1 else none;
}

one_open-IsOpen : IsOpen one_open
unfolding Numbered
one_open-IsOpen = record {
  counted = refl;
  numbered = (instance_1, refl, omega arith, omega arith, tt);
  next_pos = omega arith;
}

init_run : (openusb_init (pos 0) (some 40) true 0 (pos 0 ∷ []) unused).0 ≡ (success, 1)
unfolding openusb_init usbi_init_handle all_failed
init_run = refl

found_1 : usbi_find_handle 1 one_open ≡ ok (some 40)
unfolding usbi_find_handle find_in
found_1 = refl

missing_2 : usbi_find_handle 2 one_open ≡ ok none
unfolding usbi_find_handle find_in
missing_2 = refl

started : all_failed (negsuc 0 ∷ pos 0 ∷ []) ≡ false
unfolding all_failed
started = refl

not_started : all_failed (negsuc 0 ∷ []) ≡ true
unfolding all_failed
not_started = refl

init-find_example :
    (lib' : Library) × (openusb_init (pos 0) (some 50) true 4 (negsuc 0 ∷ pos 0 ∷ []) one_open
      ≡ ((success, 2), lib'))
    × IsOpen lib'
    × (usbi_find_handle 2 lib' ≡ ok (some 50))
init-find_example =
    init-find one_open 0 50 4 (negsuc 0 ∷ pos 0 ∷ []) one_open-IsOpen refl (omega arith) started

fini-forgets_example :
    (lib' : Library) × (openusb_fini 1 one_open ≡ ok lib')
    × IsOpen lib'
    × (lib'.object 40 ≡ none)
    × (usbi_find_handle 1 lib' ≡ ok none)
fini-forgets_example = fini-forgets one_open 1 40 one_open-IsOpen found_1

init-dangles_example :
    (lib' : Library) × (openusb_init (pos 0) (some 50) true 0 (negsuc 0 ∷ []) one_open
      ≡ ((platform_failure, 0), lib'))
    × (lib'.inited ≡ 1)
    × (usbi_find_handle 2 lib' ≡ fault)
init-dangles_example =
    init-dangles one_open 0 50 0 2 (negsuc 0 ∷ []) one_open-IsOpen (omega arith) refl not_started
      missing_2
