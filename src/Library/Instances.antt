-- ===== src/Library/Instances.antt =====
-- Opening and closing instances of the library (`openusb_init` and `openusb_fini` of
-- openusb/src/usb.c).
use libopenusb.Prelude.{
  ◌==◌, if◌then◌else◌, ==_iff, Bool-cases, length, replicate, length-append, ℤ, pos, ℕ, ◌+◌, ◌%◌,
  ◌^◌, ◌≤◌, ◌<◌, ◌≡◌, refl, sym, ap, inl, inr, true, false, none, some, List, [], ◌∷◌, ◌++◌, arith,
}
use libopenusb.Codes.{success}
use libopenusb.Run.{ok}
use libopenusb.Transfers.{at}
use libopenusb.Library.{
  LibHandle, Library, no_event, event_types, usbi_find_handle, usbi_init_handle, all_failed,
  init_common, openusb_init,
}
use libopenusb.Library.Numbers.{Numbered, Numbered-fresh, Numbered-at, Numbered-snoc, find_in-last}

-- One handle for each `openusb_init`, with rising numbers below the next one.
pub record IsOpen (lib : Library) : Type 0 where
  pub counted : lib.inited ≡ length lib.handles
  pub numbered : Numbered lib.object 1 lib.cur_handle lib.handles
  pub next_pos : 1 ≤ lib.cur_handle

abbrev pub new_handle : ℕ → ℕ → LibHandle
new_handle n debug = record {
  handle = n;
  debug_level = debug;
  debug_flags = 0;
  debug_cb = none;
  event_cbs = replicate event_types no_event;
  coldplug_complete = false;
}

-- The library after a handle has been made at an address.
abbrev opened : ℕ → ℕ → Library → Library
opened p debug lib = record lib {
  inited = lib.inited + 1;
  cur_handle = (lib.cur_handle + 1) % 2 ^ 64;
  handles = lib.handles ++ p ∷ [];
  object = at lib.object p (some (new_handle lib.cur_handle debug));
}

length-zero {ℓ} : {A : Type ℓ} (xs : List A) → length xs ≡ 0 → xs ≡ []
length-zero [] e = refl
length-zero (x ∷ xs) e = absurd (omega arith)

-- With no instance there is no handle on the list that a new list could lose.
pub common-same :
    (lib : Library) (c : ℕ)
    → IsOpen lib
    → (r : ℕ) × ((if lib.inited == 0 then init_common (pos c) lib else (success, lib))
        ≡ (pos r, lib))
unfolding init_common
common-same lib c o = elim (Bool-cases (lib.inited == 0)) [
  | inr t ↦ (0, rw t refl)
  | inl t ↦
      let nil : lib.handles ≡ [] =
        length-zero lib.handles (omega (arith, o.counted, (==_iff lib.inited 0).0 t)) in
      (c, rw t (ap (λ l. (pos c, record lib { handles = l })) (sym nil)))
]

init-opened :
    (lib : Library) (c p debug : ℕ) (inits : List ℤ)
    → IsOpen lib
    → all_failed inits ≡ false
    → openusb_init (pos c) (some p) true debug inits lib
      ≡ ((success, lib.cur_handle), opened p debug lib)
unfolding openusb_init usbi_init_handle
init-opened lib c p debug inits o f = let (r, e) = common-same lib c o in rw (e, f) refl

pub at-same : {A : Type 0} (f : ℕ → A) (p : ℕ) (v : A) → at f p v p ≡ v
at-same f p v = let t : (p == p) ≡ true = ground arith in rw t refl

-- `openusb_init`, over one backend at least that starts, gives a handle that no other instance has:
-- it is found at its own memory, and the invariant of the instances holds again.
pub init-find :
    (lib : Library) (c p debug : ℕ) (inits : List ℤ)
    → IsOpen lib
    → lib.object p ≡ none
    → lib.cur_handle + 1 < 2 ^ 64
    → all_failed inits ≡ false
    → (lib' : Library) × (openusb_init (pos c) (some p) true debug inits lib
        ≡ ((success, lib.cur_handle), lib'))
      × IsOpen lib'
      × (usbi_find_handle lib.cur_handle lib' ≡ ok (some p))
unfolding usbi_find_handle
init-find lib c p debug inits o fresh room f =
    let v = new_handle lib.cur_handle debug in
    let object' = at lib.object p (some v) in
    let out = Numbered-fresh lib.object 1 lib.cur_handle p lib.handles fresh o.numbered in
    let n = Numbered-at lib.object 1 lib.cur_handle p (some v) lib.handles out o.numbered in
    let e : object' p ≡ some v = at-same lib.object p (some v) in
    let w : (lib.cur_handle + 1) % 2 ^ 64 ≡ lib.cur_handle + 1 = omega arith in
    let t : (lib.inited + 1 == 0) ≡ false = ground arith in
    (
      opened p debug lib,
      init-opened lib c p debug inits o f,
      record {
        counted = omega (arith, o.counted, length-append lib.handles (p ∷ []));
        numbered =
            rw w (Numbered-snoc object' 1 lib.cur_handle p lib.handles v e refl o.next_pos n);
        next_pos = omega (arith, o.next_pos);
      },
      rw (t, find_in-last object' 1 lib.cur_handle p lib.handles v e (omega arith) n) refl,
    )
