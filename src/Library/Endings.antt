-- ===== src/Library/Endings.antt =====
-- The end of an instance of the library, and an instance that does not come about
-- (openusb/src/usb.c).
use libopenusb.Prelude.{
  ◌==◌, Bool-cases, length, length-append, ℤ, pos, ℕ, ◌+◌, ◌-◌, ◌%◌, ◌^◌, ◌<◌, ◌≡◌, refl, ap, subst,
  ◌∙◌, inl, inr, true, false, Option, none, some, List, [], ◌∷◌, ◌++◌, arith,
}
use libopenusb.Codes.{platform_failure}
use libopenusb.Run.{Run, ok, fault}
use libopenusb.LinkedList.Chains.{NotIn}
use libopenusb.Transfers.{at, remove}
use libopenusb.Transfers.Queues.{remove-split, NotIn-removed}
use libopenusb.Library.{
  LibHandle, Library, find_in, usbi_find_handle, usbi_init_handle, usbi_destroy_handle, all_failed,
  openusb_init, openusb_fini,
}
use libopenusb.Library.Numbers.{
  Numbered, Numbered-fresh, Numbered-Distinct, Numbered-at, Numbered-drop, Place-cases,
}
use libopenusb.Library.Instances.{IsOpen, new_handle, common-same, at-same}

find_in-at :
    (object : ℕ → Option LibHandle) (k p : ℕ) (v : Option LibHandle) (xs : List ℕ)
    → NotIn p xs
    → find_in (at object p v) k xs ≡ find_in object k xs
unfolding find_in NotIn
find_in-at object k p v [] n = refl
find_in-at object k p v (x ∷ xs) n = ground (arith, n.0, find_in-at object k p v xs n.1)

find_in-freed :
    (object : ℕ → Option LibHandle) (k p : ℕ) (xs : List ℕ)
    → object p ≡ none
    → find_in object k (p ∷ xs) ≡ fault
unfolding find_in
find_in-freed object k p xs e = ground (arith, e)

found-once : (x : Run (Option ℕ)) (p : ℕ) → x ≡ ok none → ¬ (x ≡ ok (some p))
found-once x p e f = cc (e, f)

found-same : (x : Run (Option ℕ)) (p q : ℕ) → x ≡ ok (some p) → x ≡ ok (some q) → p ≡ q
found-same x p q e f = cc (e, f)

find_in-append :
    (object : ℕ → Option LibHandle) (lo hi k : ℕ) (xs ys : List ℕ)
    → Numbered object lo hi xs
    → find_in object k xs ≡ ok none
    → find_in object k (xs ++ ys) ≡ find_in object k ys
unfolding find_in Numbered
find_in-append object lo hi k [] ys n e = refl
find_in-append object lo hi k (x ∷ xs) ys (g, q, a, b, n) e = elim (Bool-cases (g.handle == k)) [
  | inl t ↦ absurd (ground (arith, q, t, e))
  | inr t ↦
      let e' : find_in object k xs ≡ ok none = ground (arith, q, t, e) in
      ground (arith, q, t, find_in-append object (g.handle + 1) hi k xs ys n e')
]

abbrev closed : ℕ → Library → Library
closed p lib = record lib {
  inited = lib.inited - 1;
  handles = remove p lib.handles;
  object = at lib.object p none;
}

-- `openusb_fini` of a handle that is found frees it and takes it off the list: the invariant of the
-- instances holds again, and its number is not found any more.
pub fini-forgets :
    (lib : Library) (n p : ℕ)
    → IsOpen lib
    → usbi_find_handle n lib ≡ ok (some p)
    → (lib' : Library) × (openusb_fini n lib ≡ ok lib')
      × IsOpen lib'
      × (lib'.object p ≡ none)
      × (usbi_find_handle n lib' ≡ ok none)
unfolding usbi_find_handle openusb_fini usbi_destroy_handle NotIn
fini-forgets lib n p o f = elim (Bool-cases (lib.inited == 0)) [
  | inl z ↦ absurd (found-once (ok none) p refl (rw z at f))
  | inr z ↦
      let found : find_in lib.object n lib.handles ≡ ok (some p) = rw z at f in
      elim (Place-cases lib.object 1 lib.cur_handle n lib.handles o.numbered) [
        | inr out ↦ absurd (found-once (find_in lib.object n lib.handles) p out found)
        | inl (w, out) ↦
            let same : w.address ≡ p =
              found-same (find_in lib.object n lib.handles) w.address p w.found found in
            let split : lib.handles ≡ w.before ++ p ∷ w.after =
              w.split ∙ ap (λ x. w.before ++ x ∷ w.after) same in
            let numbered = subst (Numbered lib.object 1 lib.cur_handle) split o.numbered in
            let once =
              Numbered-Distinct lib.object 1 lib.cur_handle (w.before ++ p ∷ w.after) numbered in
            let rest : remove p lib.handles ≡ w.before ++ w.after =
              rw split (remove-split p w.before w.after once) in
            let p_out = subst (NotIn p) rest (NotIn-removed p lib.handles) in
            let dropped = Numbered-drop lib.object 1 lib.cur_handle p w.before w.after numbered in
            let gone : find_in (at lib.object p none) n (w.before ++ w.after) ≡ ok none =
              find_in-at lib.object n p none (w.before ++ w.after) p_out ∙ out in
            let count : lib.inited - 1 ≡ length (w.before ++ w.after) = omega (
              arith,
              o.counted,
              ap length split,
              length-append w.before (p ∷ w.after),
              length-append w.before w.after,
            ) in
            (
              closed p lib,
              rw (z, found) refl,
              record {
                counted = rw rest count;
                numbered = rw rest (
                    Numbered-at lib.object 1 lib.cur_handle p none (w.before ++ w.after) p_out
                      dropped);
                next_pos = o.next_pos;
              },
              at-same lib.object p none,
              elim (Bool-cases (lib.inited - 1 == 0)) [
                | inl last ↦ rw last refl
                | inr more ↦ rw (more, rest) gone
              ],
            )
      ]
]

-- The library after no backend has started.
abbrev dangling : ℕ → ℕ → Library → Library
dangling p debug lib = record lib {
  cur_handle = (lib.cur_handle + 1) % 2 ^ 64;
  handles = lib.handles ++ p ∷ [];
  object = at (at lib.object p (some (new_handle lib.cur_handle debug))) p none;
}

-- `openusb_init` next to an open instance frees its handle when no backend starts, but leaves it on the
-- list: from then on to look for a number that no open instance has reads freed memory.
pub init-dangles :
    (lib : Library) (c p debug k : ℕ) (inits : List ℤ)
    → IsOpen lib
    → 0 < lib.inited
    → lib.object p ≡ none
    → all_failed inits ≡ true
    → usbi_find_handle k lib ≡ ok none
    → (lib' : Library) × (openusb_init (pos c) (some p) true debug inits lib
        ≡ ((platform_failure, 0), lib'))
      × (lib'.inited ≡ lib.inited)
      × (usbi_find_handle k lib' ≡ fault)
unfolding openusb_init usbi_init_handle usbi_find_handle find_in
init-dangles lib c p debug k inits o running fresh f missing =
    let (r, e) = common-same lib c o in
    let z : (lib.inited == 0) ≡ false = ground arith in
    let none_there : find_in lib.object k lib.handles ≡ ok none = rw z at missing in
    let v = some (new_handle lib.cur_handle debug) in
    let out = Numbered-fresh lib.object 1 lib.cur_handle p lib.handles fresh o.numbered in
    let n1 = Numbered-at lib.object 1 lib.cur_handle p v lib.handles out o.numbered in
    let object' = at (at lib.object p v) p none in
    let n2 = Numbered-at (at lib.object p v) 1 lib.cur_handle p none lib.handles out n1 in
    let f2 =
      find_in-at (at lib.object p v) k p none lib.handles out
      ∙ find_in-at lib.object k p v lib.handles out
      ∙ none_there in
    let same : lib.inited + 1 - 1 ≡ lib.inited = omega arith in
    let gone = find_in-freed object' k p [] (at-same (at lib.object p v) p none) in
    (
      dangling p debug lib,
      rw (e, f, same) refl,
      refl,
      rw (z, find_in-append object' 1 lib.cur_handle k lib.handles (p ∷ []) n2 f2) gone,
    )
