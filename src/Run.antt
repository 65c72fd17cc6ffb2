-- ===== src/Run.antt =====
-- The outcome of running C code: a value, an access outside the memory it was given, or, for a loop
-- that is bounded by fuel here and not in C, no more fuel. A lock that its own thread holds does not
-- come back either, and is `no_fuel` too.
use libopenusb.Prelude.{ℕ, none, some, List, get_elem?}

pub data Run {ℓ} (A : Type ℓ) : Type ℓ where
  ok : A → Run A
  fault : Run A
  no_fuel : Run A

infixl 5 ◌>>=◌ ◌>>◌
abbrev pub ◌>>=◌ {ℓ κ} : {A : Type ℓ} {B : Type κ} → Run A → (A → Run B) → Run B
ok a >>= f = f a
fault >>= f = fault
no_fuel >>= f = no_fuel

abbrev pub ◌>>◌ {ℓ} : {B : Type ℓ} → Run (Unit {0}) → Run B → Run B
m >> k = m >>= λ _. k

-- The same by name, for modules that use the operators of `Proc`.
abbrev pub and_then {ℓ κ} : {A : Type ℓ} {B : Type κ} → Run A → (A → Run B) → Run B
and_then (ok a) f = f a
and_then fault f = fault
and_then no_fuel f = no_fuel

-- A byte of an allocated block; reading outside the block is undefined in C.
unfoldable pub load : List ℕ → ℕ → Run ℕ
load mem p = elim (get_elem? mem p) [ none ↦ fault | some b ↦ ok b ]
