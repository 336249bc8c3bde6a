-- ===== src/Prelude/Faults.antt =====
-- Code that may run into undefined behaviour: `none` is a fault, such as a write past the end of an
-- array or a read through a null pointer.
use mathlib.Core.Bool.{Bool, true, false}
use mathlib.Core.Option.{Option, none, some}

infixl 5 ◌>>=◌ ◌>>◌
abbrev pub ◌>>=◌ {ℓ κ} : {A : Type ℓ} {B : Type κ} → Option A → (A → Option B) → Option B
none >>= f = none
some a >>= f = f a

abbrev pub ◌>>◌ {ℓ} : {B : Type ℓ} → Option (Unit {0}) → Option B → Option B
m >> k = m >>= λ _. k

-- The code runs on only if the access is defined.
abbrev pub defined : Bool → Option (Unit {0})
defined true = some tt
defined false = none
