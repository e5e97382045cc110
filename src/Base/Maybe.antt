-- ===== src/Base/Maybe.antt =====
-- A chain of calls that may each return None, with an early return for the first that does.
use mathlib.Core.Bool.{Bool, true, false}
use mathlib.Core.Option.{Option, none, some}
use uptime_platform.Base.Result.{Result, ok, err}

infixl 10 ◌>>=◌ ◌>>◌
abbrev pub ◌>>=◌ {ℓ κ} : {A : Type ℓ} {B : Type κ} → Option A → (A → Option B) → Option B
none >>= f = none
some a >>= f = f a

-- An exception that the caller turns into an early return.
abbrev pub caught {ℓ κ} : {E : Type κ} {A : Type ℓ} → Result E A → Option A
caught (ok a) = some a
caught (err e) = none

-- `if not test: return`
abbrev pub guard : Bool → Option (Unit {0})
guard true = some tt
guard false = none

abbrev pub ◌>>◌ {ℓ κ} : {A : Type ℓ} {B : Type κ} → Option A → Option B → Option B
m >> k = m >>= λ _. k
