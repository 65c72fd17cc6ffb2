-- ===== src/Prelude/Lists.antt =====
-- Lists measured and indexed by native numbers, under the library's names.
use Prim.Native.Nat.add
use Prim.Native.Nat.{ℕ, zero, suc, ◌+◌, ◌<◌, ◌≤◌}
use mathlib.Core.Path.{◌≡◌, refl, subst, ap, ◌∙◌}
use mathlib.Core.Logic.{◌≢◌}
use mathlib.Core.List.{List, [], ◌∷◌, ◌++◌, map, append_assoc}
use mathlib.Core.Option.{Option, none, some}
use native.Mathlib.Omega.{arith}
use native.Mathlib.Nat.{add-zero}

module _ {ℓ} {A : Type ℓ} where
  abbrev pub length : List A → ℕ
  length [] = 0
  length (x ∷ xs) = suc (length xs)

  abbrev pub get_elem? : List A → ℕ → Option A
  get_elem? [] i = none
  get_elem? (x ∷ xs) zero = some x
  get_elem? (x ∷ xs) (suc i) = get_elem? xs i

  abbrev pub take : ℕ → List A → List A
  take zero xs = []
  take (suc n) [] = []
  take (suc n) (x ∷ xs) = x ∷ take n xs

  abbrev pub drop : ℕ → List A → List A
  drop zero xs = xs
  drop (suc n) [] = []
  drop (suc n) (x ∷ xs) = drop n xs

  -- A write out of bounds changes nothing.
  abbrev pub set : List A → ℕ → A → List A
  set [] i v = []
  set (x ∷ xs) zero v = v ∷ xs
  set (x ∷ xs) (suc i) v = x ∷ set xs i v

  abbrev pub replicate : ℕ → A → List A
  replicate zero a = []
  replicate (suc n) a = a ∷ replicate n a

  pub length-append : (xs ys : List A) → length (xs ++ ys) ≡ length xs + length ys
  length-append [] ys = omega arith
  length-append (x ∷ xs) ys = omega (arith, length-append xs ys)

  pub length-replicate : (n : ℕ) (a : A) → length (replicate n a) ≡ n
  length-replicate zero a = omega arith
  length-replicate (suc n) a = omega (arith, length-replicate n a)

  pub drop-replicate : (n m : ℕ) (a : A) → drop n (replicate (n + m) a) ≡ replicate m a
  drop-replicate zero m a = ap (λ k. replicate k a) (omega arith)
  drop-replicate (suc n) m a =
      ap (λ k. drop (suc n) (replicate k a)) {x = suc n + m} {y = suc (n + m)} (omega arith)
      ∙ drop-replicate n m a

  pub get_elem?-replicate : (n i : ℕ) (a : A) → i < n → get_elem? (replicate n a) i ≡ some a
  get_elem?-replicate zero i a h = absurd (omega arith)
  get_elem?-replicate (suc n) zero a h = refl
  get_elem?-replicate (suc n) (suc i) a h = get_elem?-replicate n i a (omega arith)

  -- An index within the list holds an element.
  pub get_elem?-lt : (xs : List A) (i : ℕ) → i < length xs → (a : A) × (get_elem? xs i ≡ some a)
  get_elem?-lt [] i h = elim h [ ]
  get_elem?-lt (x ∷ xs) zero h = (x, refl)
  get_elem?-lt (x ∷ xs) (suc i) h = get_elem?-lt xs i (omega arith)

  pub get_elem?-append :
      (xs ys : List A) (i : ℕ) → get_elem? (xs ++ ys) (length xs + i) ≡ get_elem? ys i
  get_elem?-append [] ys i = rw add.zero
  get_elem?-append (x ∷ xs) ys i = rw add.suc (get_elem?-append xs ys i)

  pub get_elem?-ge : (xs : List A) (i : ℕ) → length xs ≤ i → get_elem? xs i ≡ none
  get_elem?-ge [] i h = refl
  get_elem?-ge (x ∷ xs) zero h = absurd (omega arith)
  get_elem?-ge (x ∷ xs) (suc i) h = get_elem?-ge xs i (omega arith)

  -- The list `bs` stands in `mem` from offset `p` on.
  abbrev pub Holds : List A → ℕ → List A → Type ℓ
  Holds mem p [] = Unit
  Holds mem p (b ∷ bs) = (get_elem? mem p ≡ some b) × Holds mem (p + 1) bs

  -- The same bytes at an offset that is written another way.
  pub Holds-at : (mem bs : List A) {p q : ℕ} → Holds mem p bs → p ≡ q → Holds mem q bs
  Holds-at mem bs h e = subst (λ x. Holds mem x bs) e h

  pub Holds-append :
      (mem xs ys : List A) (p : ℕ)
      → Holds mem p (xs ++ ys)
      → Holds mem p xs × Holds mem (p + length xs) ys
  Holds-append mem [] ys p h = (tt, Holds-at mem ys h (omega arith))
  Holds-append mem (x ∷ xs) ys p h =
      let r = Holds-append mem xs ys (p + 1) h.1 in ((h.0, r.0), Holds-at mem ys r.1 (omega arith))

  Holds-mid_at : (pre xs post : List A) (n : ℕ) → n ≡ length pre → Holds (pre ++ (xs ++ post)) n xs
  Holds-mid_at pre [] post n e = tt
  Holds-mid_at pre (x ∷ xs) post n e = (
    rw (e, ← add-zero (length pre)) (get_elem?-append pre (x ∷ (xs ++ post)) 0),
    subst (λ l. Holds l (n + 1) xs) (append_assoc pre (x ∷ []) (xs ++ post))
        (Holds-mid_at (pre ++ x ∷ []) xs post (n + 1) (omega (arith, length-append pre (x ∷ [])))),
  )

  -- A block holds what it was made of.
  pub Holds-mid : (pre xs post : List A) → Holds (pre ++ (xs ++ post)) (length pre) xs
  Holds-mid pre xs post = Holds-mid_at pre xs post (length pre) refl

  get_elem?-some : (xs : List A) (i : ℕ) (a : A) → get_elem? xs i ≡ some a → i < length xs
  get_elem?-some [] i a h = cc
  get_elem?-some (x ∷ xs) zero a h = omega arith
  get_elem?-some (x ∷ xs) (suc i) a h = omega (arith, get_elem?-some xs i a h)

  -- What is held lies within the block.
  pub Holds-length :
      (mem bs : List A) (p : ℕ) → Holds mem p bs → (0 < length bs → p + length bs ≤ length mem)
  Holds-length mem [] p h n = absurd (omega arith)
  Holds-length mem (b ∷ []) p h n = omega (arith, get_elem?-some mem p b h.0)
  Holds-length mem (b ∷ c ∷ bs) p h n =
      omega (arith, Holds-length mem (c ∷ bs) (p + 1) h.1 (omega arith))

  pub Holds-le : (mem bs : List A) (p : ℕ) → Holds mem p bs → length bs ≤ length mem
  Holds-le mem [] p h = omega arith
  Holds-le mem (b ∷ bs) p h = omega (arith, Holds-length mem (b ∷ bs) p h (omega arith))

module _ {ℓ} {A : Type ℓ} where
  pub length-set : (xs : List A) (i : ℕ) (v : A) → length (set xs i v) ≡ length xs
  length-set [] i v = refl
  length-set (x ∷ xs) zero v = refl
  length-set (x ∷ xs) (suc i) v = omega (arith, length-set xs i v)

  pub get_elem?-set :
      (xs : List A) (i : ℕ) (v : A) → i < length xs → get_elem? (set xs i v) i ≡ some v
  get_elem?-set [] i v h = elim h [ ]
  get_elem?-set (x ∷ xs) zero v h = refl
  get_elem?-set (x ∷ xs) (suc i) v h = get_elem?-set xs i v (omega arith)

  pub set-set : (xs : List A) (i : ℕ) (v w : A) → set (set xs i v) i w ≡ set xs i w
  set-set [] i v w = refl
  set-set (x ∷ xs) zero v w = refl
  set-set (x ∷ xs) (suc i) v w = cc (set-set xs i v w)

  pub get_elem?-set_other :
      (xs : List A) (i j : ℕ) (v : A) → i ≢ j → get_elem? (set xs i v) j ≡ get_elem? xs j
  get_elem?-set_other [] i j v ne = refl
  get_elem?-set_other (x ∷ xs) zero zero v ne = absurd (omega arith)
  get_elem?-set_other (x ∷ xs) zero (suc j) v ne = refl
  get_elem?-set_other (x ∷ xs) (suc i) zero v ne = refl
  get_elem?-set_other (x ∷ xs) (suc i) (suc j) v ne =
      get_elem?-set_other xs i j v (λ e. ne (omega arith))

pub length-map {ℓ κ} :
    {A : Type ℓ} {B : Type κ} (f : A → B) (xs : List A) → length (map f xs) ≡ length xs
length-map f [] = omega arith
length-map f (x ∷ xs) = omega (arith, length-map f xs)
