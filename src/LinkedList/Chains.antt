-- ===== src/LinkedList/Chains.antt =====
-- Entries that point to each other in both directions, without the ends.
use libopenusb.Prelude.{ℕ, ◌≡◌, refl, sym, ◌∙◌, ◌≢◌, ◌↔◌, List, [], ◌∷◌, ◌++◌, arith}
use libopenusb.LinkedList.{Heap, update, set_prev, set_next}

unfoldable pub NotIn : ℕ → List ℕ → Type 0
NotIn p [] = Unit {0}
NotIn p (x ∷ xs) = (p ≢ x) × NotIn p xs

unfoldable pub Distinct : List ℕ → Type 0
Distinct [] = Unit {0}
Distinct (x ∷ xs) = NotIn x xs × Distinct xs

-- From `a` on through `xs`.
unfoldable pub Chain : Heap → ℕ → List ℕ → Type 0
Chain h a [] = Unit {0}
Chain h a (x ∷ xs) = (h.next a ≡ x) × (h.prev x ≡ a) × Chain h x xs

-- The last of `a` and `xs`
abbrev pub final : ℕ → List ℕ → ℕ
final a [] = a
final a (x ∷ xs) = final x xs

pub update_same : (f : ℕ → ℕ) (p v : ℕ) → update f p v p ≡ v
update_same f p v = ground arith

pub update_other : (f : ℕ → ℕ) (p v q : ℕ) → q ≢ p → update f p v q ≡ f q
update_other f p v q d = ground arith

pub NotIn-final : (p a : ℕ) (xs : List ℕ) → p ≢ a → NotIn p xs → p ≢ final a xs
unfolding NotIn
NotIn-final p a [] d n = d
NotIn-final p a (x ∷ xs) d n = NotIn-final p x xs n.0 n.1

pub NotIn-append : (p : ℕ) (xs ys : List ℕ) → NotIn p (xs ++ ys) ↔ (NotIn p xs × NotIn p ys)
unfolding NotIn
NotIn-append p [] ys = (λ n. (tt, n), λ n. n.1)
NotIn-append p (x ∷ xs) ys = (
  λ n. let r = (NotIn-append p xs ys).0 n.1 in ((n.0, r.0), r.1),
  λ n. (n.0.0, (NotIn-append p xs ys).1 (n.0.1, n.1)),
)

pub final-append : (a : ℕ) (xs : List ℕ) (y : ℕ) (ys : List ℕ) → final a (xs ++ y ∷ ys) ≡ final y ys
final-append a [] y ys = refl
final-append a (x ∷ xs) y ys = final-append x xs y ys

module _ (h : Heap) where
  pub Chain-append :
      (a : ℕ) (xs ys : List ℕ) → Chain h a (xs ++ ys) ↔ (Chain h a xs × Chain h (final a xs) ys)
  unfolding Chain
  Chain-append a [] ys = (λ c. (tt, c), λ c. c.1)
  Chain-append a (x ∷ xs) ys = (
    λ c. let r = (Chain-append x xs ys).0 c.2 in ((c.0, c.1, r.0), r.1),
    λ c. (c.0.0, c.0.1, (Chain-append x xs ys).1 (c.0.2, c.1)),
  )

  -- A write outside the chain, or at the end where it does not count.
  pub Chain-set_prev :
      (p v a : ℕ) (xs : List ℕ) → NotIn p xs → Chain h a xs → Chain (set_prev h p v) a xs
  unfolding Chain NotIn
  Chain-set_prev p v a [] n c = tt
  Chain-set_prev p v a (x ∷ xs) n c =
      (c.0, update_other h.prev p v x (λ e. n.0 (sym e)) ∙ c.1, Chain-set_prev p v x xs n.1 c.2)

  pub Chain-set_next :
      (p v a : ℕ) (xs : List ℕ) → p ≢ a → NotIn p xs → Chain h a xs → Chain (set_next h p v) a xs
  unfolding Chain NotIn
  Chain-set_next p v a [] d n c = tt
  Chain-set_next p v a (x ∷ xs) d n c =
      (update_other h.next p v a (λ e. d (sym e)) ∙ c.0, c.1, Chain-set_next p v x xs n.0 n.1 c.2)

  pub Chain-set_next-final :
      (v a : ℕ) (xs : List ℕ)
      → Distinct (a ∷ xs)
      → Chain h a xs
      → Chain (set_next h (final a xs) v) a xs
  unfolding Chain NotIn Distinct
  Chain-set_next-final v a [] d c = tt
  Chain-set_next-final v a (x ∷ xs) d c = (
    update_other h.next (final x xs) v a (NotIn-final a x xs d.0.0 d.0.1) ∙ c.0,
    c.1,
    Chain-set_next-final v x xs d.1 c.2,
  )

-- No address of the first list is in the second.
unfoldable pub Disjoint : List ℕ → List ℕ → Type 0
Disjoint [] ys = Unit {0}
Disjoint (x ∷ xs) ys = NotIn x ys × Disjoint xs ys

pub Distinct-append :
    (xs ys : List ℕ) → Distinct (xs ++ ys) ↔ (Distinct xs × Distinct ys × Disjoint xs ys)
unfolding Distinct Disjoint
Distinct-append [] ys = (λ d. (tt, d, tt), λ d. d.1)
Distinct-append (x ∷ xs) ys = (
  λ d.
      let n = (NotIn-append x xs ys).0 d.0 in
      let r = (Distinct-append xs ys).0 d.1 in ((n.0, r.0), r.1, (n.1, r.2)),
  λ d. ((NotIn-append x xs ys).1 (d.0.0, d.2.0), (Distinct-append xs ys).1 (d.0.1, d.1, d.2.1)),
)

pub Disjoint-final : (a : ℕ) (xs ys : List ℕ) → Disjoint (a ∷ xs) ys → NotIn (final a xs) ys
unfolding Disjoint
Disjoint-final a [] ys d = d.0
Disjoint-final a (x ∷ xs) ys d = Disjoint-final x xs ys d.1

pub Disjoint-tail :
    (xs : List ℕ) (y : ℕ) (ys : List ℕ) → Disjoint xs (y ∷ ys) → NotIn y xs × Disjoint xs ys
unfolding Disjoint NotIn
Disjoint-tail [] y ys d = (tt, tt)
Disjoint-tail (x ∷ xs) y ys d =
    let r = Disjoint-tail xs y ys d.1 in ((λ e. d.0.0 (sym e), r.0), (d.0.1, r.1))

pub Disjoint-nil : (xs : List ℕ) → Disjoint xs []
unfolding Disjoint NotIn
Disjoint-nil [] = tt
Disjoint-nil (x ∷ xs) = (tt, Disjoint-nil xs)

pub NotIn→Disjoint : (e : ℕ) (xs : List ℕ) → NotIn e xs → Disjoint xs (e ∷ [])
unfolding Disjoint NotIn
NotIn→Disjoint e [] n = tt
NotIn→Disjoint e (x ∷ xs) n = ((λ q. n.0 (sym q), tt), NotIn→Disjoint e xs n.1)

pub Disjoint-sym : (xs ys : List ℕ) → Disjoint xs ys → Disjoint ys xs
unfolding Disjoint
Disjoint-sym xs [] d = tt
Disjoint-sym xs (y ∷ ys) d = let r = Disjoint-tail xs y ys d in (r.0, Disjoint-sym xs ys r.1)

pub append-Disjoint : (xs ys zs : List ℕ) → Disjoint xs zs → Disjoint ys zs → Disjoint (xs ++ ys) zs
unfolding Disjoint
append-Disjoint [] ys zs d e = e
append-Disjoint (x ∷ xs) ys zs d e = (d.0, append-Disjoint xs ys zs d.1 e)
