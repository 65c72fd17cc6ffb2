-- ===== src/Transfers/Queues.antt =====
-- Facts about the lists of I/Os, and about what is behind the addresses on them.
use libopenusb.Prelude.{
  ◌==◌, Bool-cases, ℕ, ◌≡◌, refl, sym, ◌↔◌, inl, inr, true, false, Option, List, [], ◌∷◌, ◌++◌,
  arith,
}
use libopenusb.LinkedList.Chains.{
  NotIn, Distinct, NotIn-append, Disjoint, Distinct-append, NotIn→Disjoint,
}
use libopenusb.Transfers.{UsbiIo, at, remove}

pub remove-absent : (p : ℕ) (xs : List ℕ) → NotIn p xs → remove p xs ≡ xs
unfolding NotIn remove
remove-absent p [] n = refl
remove-absent p (x ∷ xs) n =
    let e : (x == p) ≡ false = ground (arith, n.0) in rw (e, remove-absent p xs n.1) refl

pub remove-split :
    (p : ℕ) (xs ys : List ℕ) → Distinct (xs ++ p ∷ ys) → remove p (xs ++ p ∷ ys) ≡ xs ++ ys
unfolding NotIn remove Distinct
remove-split p [] ys d =
    let e : (p == p) ≡ true = ground arith in rw (e, remove-absent p ys d.0) refl
remove-split p (x ∷ xs) ys d =
    let n = ((NotIn-append x xs (p ∷ ys)).0 d.0).1.0 in
    let e : (x == p) ≡ false = ground (arith, n) in rw (e, remove-split p xs ys d.1) refl

pub NotIn-remove : (q p : ℕ) (xs : List ℕ) → NotIn q xs → NotIn q (remove p xs)
unfolding NotIn remove
NotIn-remove q p [] n = tt
NotIn-remove q p (x ∷ xs) n = elim (Bool-cases (x == p)) [
  | inl e ↦ rw e (NotIn-remove q p xs n.1)
  | inr e ↦ rw e (n.0, NotIn-remove q p xs n.1)
]

pub NotIn-removed : (p : ℕ) (xs : List ℕ) → NotIn p (remove p xs)
unfolding NotIn remove
NotIn-removed p [] = tt
NotIn-removed p (x ∷ xs) = elim (Bool-cases (x == p)) [
  | inl e ↦ rw e (NotIn-removed p xs)
  | inr e ↦ rw e (ground arith, NotIn-removed p xs)
]

pub Distinct-remove : (p : ℕ) (xs : List ℕ) → Distinct xs → Distinct (remove p xs)
unfolding Distinct remove
Distinct-remove p [] d = tt
Distinct-remove p (x ∷ xs) d = elim (Bool-cases (x == p)) [
  | inl e ↦ rw e (Distinct-remove p xs d.1)
  | inr e ↦ rw e (NotIn-remove x p xs d.0, Distinct-remove p xs d.1)
]

pub Distinct-snoc : (p : ℕ) (xs : List ℕ) → Distinct xs → NotIn p xs → Distinct (xs ++ p ∷ [])
unfolding Distinct NotIn
Distinct-snoc p xs d n = (Distinct-append xs (p ∷ [])).1 (d, (tt, tt), NotIn→Disjoint p xs n)

pub Disjoint-remove : (p : ℕ) (xs ys : List ℕ) → Disjoint xs ys → Disjoint (remove p xs) ys
unfolding Disjoint remove
Disjoint-remove p [] ys d = tt
Disjoint-remove p (x ∷ xs) ys d = elim (Bool-cases (x == p)) [
  | inl e ↦ rw e (Disjoint-remove p xs ys d.1)
  | inr e ↦ rw e (d.0, Disjoint-remove p xs ys d.1)
]

pub Disjoint-snoc :
    (p : ℕ) (xs ys : List ℕ) → Disjoint xs ys → NotIn p xs → Disjoint xs (ys ++ p ∷ [])
unfolding Disjoint NotIn
Disjoint-snoc p [] ys d n = tt
Disjoint-snoc p (x ∷ xs) ys d n =
    ((NotIn-append x ys (p ∷ [])).1 (d.0, (λ e. n.0 (sym e), tt)), Disjoint-snoc p xs ys d.1 n.1)

-- A condition on what is behind each address of a list
unfoldable pub Each : (Option UsbiIo → Type 0) → (ℕ → Option UsbiIo) → List ℕ → Type 0
Each P ios [] = Unit {0}
Each P ios (p ∷ ps) = P (ios p) × Each P ios ps

module _ (P : Option UsbiIo → Type 0) (ios : ℕ → Option UsbiIo) where
  pub Each-append : (xs ys : List ℕ) → Each P ios (xs ++ ys) ↔ (Each P ios xs × Each P ios ys)
  unfolding Each
  Each-append [] ys = (λ e. (tt, e), λ e. e.1)
  Each-append (x ∷ xs) ys = (
    λ e. let r = (Each-append xs ys).0 e.1 in ((e.0, r.0), r.1),
    λ e. (e.0.0, (Each-append xs ys).1 (e.0.1, e.1)),
  )

  pub Each-remove : (p : ℕ) (xs : List ℕ) → Each P ios xs → Each P ios (remove p xs)
  unfolding Each remove
  Each-remove p [] e = tt
  Each-remove p (x ∷ xs) e = elim (Bool-cases (x == p)) [
    | inl t ↦ rw t (Each-remove p xs e.1)
    | inr t ↦ rw t (e.0, Each-remove p xs e.1)
  ]

  pub Each-at :
      (p : ℕ) (v : Option UsbiIo) (xs : List ℕ)
      → NotIn p xs
      → Each P ios xs
      → Each P (at ios p v) xs
  unfolding Each NotIn
  Each-at p v [] n e = tt
  Each-at p v (x ∷ xs) n e =
      let t : (x == p) ≡ false = ground (arith, n.0) in (rw t e.0, Each-at p v xs n.1 e.1)

pub remove-snoc : (p : ℕ) (xs : List ℕ) → NotIn p xs → remove p (xs ++ p ∷ []) ≡ xs
unfolding NotIn remove
remove-snoc p [] n = let t : (p == p) ≡ true = ground arith in rw t refl
remove-snoc p (x ∷ xs) n =
    let t : (x == p) ≡ false = ground (arith, n.0) in rw (t, remove-snoc p xs n.1) refl
