-- ===== src/Proc.antt =====
-- A C function with early returns: a statement goes on with a value or returns from the function.
use libopenusb.Prelude.{Bool, true, false, Option, none, some}
use libopenusb.Run.{Run, ok, fault, no_fuel}

pub data Flow {ℓ κ} (R : Type ℓ) (A : Type κ) : Type (ℓ ⊔ κ) where
  next : A → Flow R A
  ret : R → Flow R A

abbrev pub Proc : Type 0 → Type 0 → Type 0
Proc R A = Run (Flow R A)

infixl 5 ◌>>=◌ ◌>>◌
abbrev pub ◌>>=◌ : {R A B : Type 0} → Proc R A → (A → Proc R B) → Proc R B
ok (next a) >>= f = f a
ok (ret r) >>= f = ok (ret r)
fault >>= f = fault
no_fuel >>= f = no_fuel

abbrev pub ◌>>◌ : {R B : Type 0} → Proc R (Unit {0}) → Proc R B → Proc R B
m >> k = m >>= λ _. k

abbrev pub pure : {R A : Type 0} → A → Proc R A
pure a = ok (next a)

abbrev pub lift : {R A : Type 0} → Run A → Proc R A
lift (ok a) = ok (next a)
lift fault = fault
lift no_fuel = no_fuel

-- if (b) return r;
abbrev pub return_if : {R : Type 0} → Bool → R → Proc R (Unit {0})
return_if true r = ok (ret r)
return_if false r = ok (next tt)

-- The value of an option, or a return.
abbrev pub some_or : {R A : Type 0} → Option A → R → Proc R A
some_or (some a) r = ok (next a)
some_or none r = ok (ret r)

-- The body of a function: what it returns early, or what the rest returns.
abbrev pub body : {R A : Type 0} → Proc R A → (A → Run R) → Run R
body (ok (next a)) f = f a
body (ok (ret r)) f = ok r
body fault f = fault
body no_fuel f = no_fuel
