-- ===== src/Tests/Rings.antt =====
-- The theorems on lists at two concrete lists in memory.
use libopenusb.Prelude.{◌==◌, ℕ, ◌≡◌, refl, Bool, true, not, ◌&&◌, List, [], ◌∷◌, arith}
use libopenusb.Run.{ok}
use libopenusb.LinkedList.{Heap, update, list_del}
use libopenusb.LinkedList.Chains.{NotIn, Distinct, Chain, Disjoint}
use libopenusb.LinkedList.Rings.{Ring}
use libopenusb.LinkedList.Removing.{list_del-Ring}
use libopenusb.LinkedList.Moving.{list_move, list_move-Ring}

-- Decisions for concrete lists
abbrev pub absent : ℕ → List ℕ → Bool
absent p [] = true
absent p (x ∷ xs) = not (p == x) && absent p xs

abbrev pub distinct : List ℕ → Bool
distinct [] = true
distinct (x ∷ xs) = absent x xs && distinct xs

abbrev pub disjoint : List ℕ → List ℕ → Bool
disjoint [] ys = true
disjoint (x ∷ xs) ys = absent x ys && disjoint xs ys

pub absent-NotIn : (p : ℕ) (xs : List ℕ) → absent p xs ≡ true → NotIn p xs
unfolding NotIn
absent-NotIn p [] e = tt
absent-NotIn p (x ∷ xs) e = (ground arith, absent-NotIn p xs (ground arith))

pub distinct-Distinct : (xs : List ℕ) → distinct xs ≡ true → Distinct xs
unfolding Distinct
distinct-Distinct [] e = tt
distinct-Distinct (x ∷ xs) e =
    (absent-NotIn x xs (ground arith), distinct-Distinct xs (ground arith))

pub disjoint-Disjoint : (xs ys : List ℕ) → disjoint xs ys ≡ true → Disjoint xs ys
unfolding Disjoint
disjoint-Disjoint [] ys e = tt
disjoint-Disjoint (x ∷ xs) ys e =
    (absent-NotIn x ys (ground arith), disjoint-Disjoint xs ys (ground arith))

-- 2, 3 and 4 behind the head 1, and 6 behind the head 5
abbrev memory : Heap
memory = record {
  next = update (update (update (update (update (update (λ _. 0) 1 2) 2 3) 3 4) 4 1) 5 6) 6 5;
  prev = update (update (update (update (update (update (λ _. 0) 1 4) 2 1) 3 2) 4 3) 5 6) 6 5;
}

first-Ring : Ring memory 1 (2 ∷ 3 ∷ 4 ∷ [])
unfolding Chain
first-Ring = record {
  chain = (refl, refl, (refl, refl, (refl, refl, tt)));
  last_next = refl;
  head_prev = refl;
  distinct = distinct-Distinct (1 ∷ 2 ∷ 3 ∷ 4 ∷ []) refl;
  non_null = absent-NotIn 0 (1 ∷ 2 ∷ 3 ∷ 4 ∷ []) refl;
}

second-Ring : Ring memory 5 (6 ∷ [])
unfolding Chain
second-Ring = record {
  chain = (refl, refl, tt);
  last_next = refl;
  head_prev = refl;
  distinct = distinct-Distinct (5 ∷ 6 ∷ []) refl;
  non_null = absent-NotIn 0 (5 ∷ 6 ∷ []) refl;
}

apart : Disjoint (1 ∷ 2 ∷ 3 ∷ 4 ∷ []) (5 ∷ 6 ∷ [])
apart = disjoint-Disjoint (1 ∷ 2 ∷ 3 ∷ 4 ∷ []) (5 ∷ 6 ∷ []) refl

list_del-Ring_example :
    (h' : Heap) × (list_del 3 memory ≡ ok h')
    × Ring h' 1 (2 ∷ 4 ∷ [])
    × Ring h' 5 (6 ∷ [])
    × (list_del 3 h' ≡ ok h')
list_del-Ring_example =
    list_del-Ring memory 1 3 (2 ∷ []) (4 ∷ []) 5 (6 ∷ []) first-Ring second-Ring apart

list_move-Ring_example :
    (h' : Heap) × (list_move 3 5 memory ≡ ok h') × Ring h' 1 (2 ∷ 4 ∷ []) × Ring h' 5 (6 ∷ 3 ∷ [])
list_move-Ring_example =
    list_move-Ring memory 1 3 (2 ∷ []) (4 ∷ []) 5 (6 ∷ []) first-Ring second-Ring apart
