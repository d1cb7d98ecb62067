-- ===== src/Base/Outcome.antt =====
-- Code that can abort: a failed `assert`, a write past an array, a call of a null pointer.
use mathlib.Core.Path.{◌≡◌, refl}
use mathlib.Core.Bool.{Bool, true, false}

pub data Fault : Type 0 where
  assertion out_of_bounds null_pointer no_fuel : Fault

pub data Outcome {ℓ} (A : Type ℓ) : Type ℓ where
  ok : A → Outcome A
  fault : Fault → Outcome A

infixl 5 ◌>>=◌ ◌>>◌
abbrev pub ◌>>=◌ {ℓ κ} : {A : Type ℓ} {B : Type κ} → Outcome A → (A → Outcome B) → Outcome B
ok a >>= f = f a
fault e >>= f = fault e

abbrev pub ◌>>◌ {ℓ} : {B : Type ℓ} → Outcome (Unit {0}) → Outcome B → Outcome B
m >> k = m >>= λ _. k

-- `assert(b)`, and the other checks that end the program.
abbrev pub check : Bool → Fault → Outcome (Unit {0})
check true e = ok tt
check false e = fault e

-- What holds of the value, if there is one.
abbrev pub Holds {ℓ κ} : {A : Type ℓ} → (A → Type κ) → Outcome A → Type κ
Holds P (ok a) = P a
Holds P (fault e) = Unit

pub Holds-bind {ℓ κ ι τ} :
    {A : Type ℓ} {B : Type κ} (P : A → Type ι) (Q : B → Type τ) (m : Outcome A) (f : A → Outcome B)
    → Holds P m
    → ((a : A) → P a → Holds Q (f a))
    → Holds Q (m >>= f)
Holds-bind P Q (ok a) f h k = k a h
Holds-bind P Q (fault e) f h k = tt

pub Holds-map {ℓ κ ι} :
    {A : Type ℓ} (P : A → Type κ) (Q : A → Type ι) (m : Outcome A)
    → ((a : A) → P a → Q a)
    → Holds P m
    → Holds Q m
Holds-map P Q (ok a) k h = k a h
Holds-map P Q (fault e) k h = tt

-- There is a value.
abbrev pub IsOk {ℓ} : {A : Type ℓ} → Outcome A → Type 0
IsOk (ok a) = Unit
IsOk (fault e) = ⊥

pub value_of {ℓ} : {A : Type ℓ} (m : Outcome A) → IsOk m → (a : A) × (m ≡ ok a)
value_of (ok a) h = (a, refl)
value_of (fault e) h = absurd h
