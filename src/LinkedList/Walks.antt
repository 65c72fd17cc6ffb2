-- ===== src/LinkedList/Walks.antt =====
-- What `list_empty` and `list_for_each_entry` of openusb/src/list.h see of a list.
use libopenusb.Prelude.{
  ◌==◌, length, ℕ, zero, suc, ◌<◌, ◌≡◌, refl, Bool, true, false, List, [], ◌∷◌, arith,
}
use libopenusb.Run.{ok}
use libopenusb.LinkedList.{Heap, list_empty, entries_from, list_for_each}
use libopenusb.LinkedList.Chains.{NotIn, Distinct, Chain, final}
use libopenusb.LinkedList.Rings.{Ring}
use libopenusb.LinkedList.Adding.{Ring-head_ne}

-- The first of `xs`, or else `b`
abbrev pub first : List ℕ → ℕ → ℕ
first [] b = b
first (x ∷ xs) b = x

pub Chain-first :
    (h : Heap) (a : ℕ) (xs : List ℕ) (b : ℕ)
    → Chain h a xs
    → h.next (final a xs) ≡ b
    → h.next a ≡ first xs b
unfolding Chain
Chain-first h a [] b c e = e
Chain-first h a (x ∷ xs) b c e = c.0

pub entries_from-Chain :
    (fuel : ℕ) (h : Heap) (head a : ℕ) (xs : List ℕ)
    → length xs < fuel
    → Chain h a xs
    → h.next (final a xs) ≡ head
    → NotIn head xs
    → NotIn 0 xs
    → entries_from fuel head (first xs head) h ≡ ok xs
unfolding entries_from Chain NotIn
entries_from-Chain zero h head a xs l c e n z = absurd (omega arith)
entries_from-Chain (suc fuel) h head a [] l c e n z = ground arith
entries_from-Chain (suc fuel) h head a (x ∷ xs) l c e n z =
    let ih = entries_from-Chain fuel h head x xs (omega arith) c.2 e n.1 z.1 in
    let nx = Chain-first h x xs head c.2 e in
    let t1 : (x == head) ≡ false = ground (arith, n.0) in
    let t2 : (x == 0) ≡ false = ground (arith, z.0) in rw (t1, t2, nx, ih) refl

-- A loop over a list visits its entries in their order, and ends if it has a round for each.
pub list_for_each-Ring :
    (fuel : ℕ) (h : Heap) (head : ℕ) (xs : List ℕ)
    → Ring h head xs
    → length xs < fuel
    → list_for_each fuel head h ≡ ok xs
unfolding list_for_each Distinct NotIn
list_for_each-Ring fuel h head xs r l =
    let t : (head == 0) ≡ false = ground (arith, Ring-head_ne r) in
    rw
      (
        t,
        Chain-first h head xs head r.chain r.last_next,
        entries_from-Chain fuel h head head xs l r.chain r.last_next r.distinct.0 r.non_null.1,
      )
      refl

abbrev pub is_nil : List ℕ → Bool
is_nil [] = true
is_nil (x ∷ xs) = false

-- `list_empty` holds of the lists without entries, and of no other.
pub list_empty-Ring :
    (h : Heap) (head : ℕ) (xs : List ℕ) → Ring h head xs → list_empty head h ≡ ok (is_nil xs)
unfolding list_empty NotIn Distinct
list_empty-Ring h head [] r = ground (arith, Ring-head_ne r, r.last_next)
list_empty-Ring h head (x ∷ xs) r =
    ground
      (arith, Ring-head_ne r, Chain-first h head (x ∷ xs) head r.chain r.last_next, r.distinct.0.0)
