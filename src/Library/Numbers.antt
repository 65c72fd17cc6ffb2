-- ===== src/Library/Numbers.antt =====
-- The numbers of the library handles on the list rise, so each number is there once.
use libopenusb.Prelude.{
  ◌==◌, Bool-cases, ℕ, ◌+◌, ◌≤◌, ◌<◌, ◌≡◌, refl, sym, ap, ◌∙◌, ◌⊎◌, inl, inr, true, false, Option,
  none, some, List, [], ◌∷◌, ◌++◌, arith,
}
use libopenusb.Run.{ok}
use libopenusb.LinkedList.Chains.{NotIn, Distinct}
use libopenusb.Transfers.{at}
use libopenusb.Library.{LibHandle, find_in}

-- The handles behind the addresses are not freed, and their numbers rise from `lo` on below `hi`.
unfoldable pub Numbered : (ℕ → Option LibHandle) → ℕ → ℕ → List ℕ → Type 0
Numbered object lo hi [] = Unit {0}
Numbered object lo hi (p ∷ ps) =
    (h : LibHandle) × (object p ≡ some h)
    × (lo ≤ h.handle)
    × (h.handle < hi)
    × Numbered object (h.handle + 1) hi ps

-- Where a number stands on the list
pub record Place (object : ℕ → Option LibHandle) (n : ℕ) (xs : List ℕ) : Type 0 where
  pub address : ℕ
  pub before : List ℕ
  pub after : List ℕ
  pub split : xs ≡ before ++ address ∷ after
  pub found : find_in object n xs ≡ ok (some address)

module _ (object : ℕ → Option LibHandle) where
  pub Numbered-weaken :
      (lo lo' hi hi' : ℕ) (xs : List ℕ)
      → lo' ≤ lo
      → hi ≤ hi'
      → Numbered object lo hi xs
      → Numbered object lo' hi' xs
  unfolding Numbered
  Numbered-weaken lo lo' hi hi' [] l u n = tt
  Numbered-weaken lo lo' hi hi' (x ∷ xs) l u (h, e, a, b, n) = (
    h,
    e,
    omega arith,
    omega arith,
    Numbered-weaken (h.handle + 1) (h.handle + 1) hi hi' xs (omega arith) u n,
  )

  pub Numbered-NotIn :
      (lo hi p : ℕ) (xs : List ℕ) (h : LibHandle)
      → object p ≡ some h
      → h.handle < lo
      → Numbered object lo hi xs
      → NotIn p xs
  unfolding Numbered NotIn
  Numbered-NotIn lo hi p [] h e l n = tt
  Numbered-NotIn lo hi p (x ∷ xs) h e l (g, q, a, b, n) = (
    λ s.
        (let same : some h ≡ some g = sym e ∙ ap object s ∙ q in
          let k : h.handle ≡ g.handle = cc same in omega arith),
    Numbered-NotIn (g.handle + 1) hi p xs h e (omega arith) n,
  )

  pub Numbered-fresh :
      (lo hi p : ℕ) (xs : List ℕ) → object p ≡ none → Numbered object lo hi xs → NotIn p xs
  unfolding Numbered NotIn
  Numbered-fresh lo hi p [] e n = tt
  Numbered-fresh lo hi p (x ∷ xs) e (g, q, a, b, n) = (
    λ s. (let bad : none ≡ some g = sym e ∙ ap object s ∙ q in cc bad),
    Numbered-fresh (g.handle + 1) hi p xs e n,
  )

  pub Numbered-Distinct : (lo hi : ℕ) (xs : List ℕ) → Numbered object lo hi xs → Distinct xs
  unfolding Numbered Distinct
  Numbered-Distinct lo hi [] n = tt
  Numbered-Distinct lo hi (x ∷ xs) (g, q, a, b, n) = (
    Numbered-NotIn (g.handle + 1) hi x xs g q (omega arith) n,
    Numbered-Distinct (g.handle + 1) hi xs n,
  )

  pub Numbered-at :
      (lo hi p : ℕ) (v : Option LibHandle) (xs : List ℕ)
      → NotIn p xs
      → Numbered object lo hi xs
      → Numbered (at object p v) lo hi xs
  unfolding Numbered NotIn
  Numbered-at lo hi p v [] d n = tt
  Numbered-at lo hi p v (x ∷ xs) d (g, q, a, b, n) =
      let t : (x == p) ≡ false = ground (arith, d.0) in
      (g, rw t q, a, b, Numbered-at (g.handle + 1) hi p v xs d.1 n)

  pub Numbered-snoc :
      (lo hi p : ℕ) (xs : List ℕ) (h : LibHandle)
      → object p ≡ some h
      → h.handle ≡ hi
      → lo ≤ hi
      → Numbered object lo hi xs
      → Numbered object lo (hi + 1) (xs ++ p ∷ [])
  unfolding Numbered
  Numbered-snoc lo hi p [] h e k l n = (h, e, omega arith, omega arith, tt)
  Numbered-snoc lo hi p (x ∷ xs) h e k l (g, q, a, b, n) =
      (g, q, a, omega arith, Numbered-snoc (g.handle + 1) hi p xs h e k (omega arith) n)

  -- Without one of its entries
  pub Numbered-drop :
      (lo hi p : ℕ) (xs ys : List ℕ)
      → Numbered object lo hi (xs ++ p ∷ ys)
      → Numbered object lo hi (xs ++ ys)
  unfolding Numbered
  Numbered-drop lo hi p [] ys (g, q, a, b, n) =
      Numbered-weaken (g.handle + 1) lo hi hi ys (omega arith) (omega arith) n
  Numbered-drop lo hi p (x ∷ xs) ys (g, q, a, b, n) =
      (g, q, a, b, Numbered-drop (g.handle + 1) hi p xs ys n)

  -- A number below all of those there, or not below what the numbers stay below.
  pub find_in-below :
      (lo hi k : ℕ) (xs : List ℕ)
      → k < lo
      → Numbered object lo hi xs
      → find_in object k xs ≡ ok none
  unfolding find_in Numbered
  find_in-below lo hi k [] l n = refl
  find_in-below lo hi k (x ∷ xs) l (g, q, a, b, n) =
      ground (arith, q, find_in-below (g.handle + 1) hi k xs (omega arith) n)

  pub find_in-above :
      (lo hi k : ℕ) (xs : List ℕ)
      → hi ≤ k
      → Numbered object lo hi xs
      → find_in object k xs ≡ ok none
  unfolding find_in Numbered
  find_in-above lo hi k [] l n = refl
  find_in-above lo hi k (x ∷ xs) l (g, q, a, b, n) =
      ground (arith, q, find_in-above (g.handle + 1) hi k xs l n)

  pub find_in-last :
      (lo hi p : ℕ) (xs : List ℕ) (h : LibHandle)
      → object p ≡ some h
      → hi ≤ h.handle
      → Numbered object lo hi xs
      → find_in object h.handle (xs ++ p ∷ []) ≡ ok (some p)
  unfolding find_in Numbered
  find_in-last lo hi p [] h e l n =
      let t : (h.handle == h.handle) ≡ true = ground arith in rw (e, t) refl
  find_in-last lo hi p (x ∷ xs) h e l (g, q, a, b, n) =
      ground (arith, q, find_in-last (g.handle + 1) hi p xs h e l n)

  -- Either the number is not there, or it is, and then not in the rest.
  pub Place-cases :
      (lo hi k : ℕ) (xs : List ℕ)
      → Numbered object lo hi xs
      → ((w : Place object k xs) × (find_in object k (w.before ++ w.after) ≡ ok none))
        ⊎ (find_in object k xs ≡ ok none)
  unfolding find_in Numbered
  Place-cases lo hi k [] n = inr refl
  Place-cases lo hi k (x ∷ xs) (g, q, a, b, n) = elim (Bool-cases (g.handle == k)) [
    | inl t ↦ inl (
      record { address = x; before = []; after = xs; split = refl; found = ground (arith, q) },
      find_in-below (g.handle + 1) hi k xs (ground arith) n,
    )
    | inr t ↦ elim (Place-cases (g.handle + 1) hi k xs n) [
      | inl (w, out) ↦ inl (
        record {
          address = w.address;
          before = x ∷ w.before;
          after = w.after;
          split = ap (λ l. x ∷ l) w.split;
          found = ground (arith, q, w.found);
        },
        ground (arith, q, out),
      )
      | inr out ↦ inr (ground (arith, q, out))
    ]
  ]
