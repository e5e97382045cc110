-- ===== src/Base/Exec.antt =====
-- Methods of a service that write to its repositories and may raise: the repositories are handed
-- back with the value and with the exception alike.
use mathlib.Core.Bool.{Bool, true, false}
use mathlib.Core.Option.{Option, none, some}
use uptime_platform.Base.Result.{Result, ok, err}

abbrev pub Exec {ℓ} : Type ℓ → Type ℓ → Type ℓ → Type ℓ
Exec S E A = S → Result E A × S

module _ {ℓ} {S E : Type ℓ} where
  abbrev pub return : {A : Type ℓ} → A → Exec S E A
  return a s = (ok a, s)

  abbrev pub raise : {A : Type ℓ} → E → Exec S E A
  raise e s = (err e, s)

  abbrev pub gets : {A : Type ℓ} → (S → A) → Exec S E A
  gets f s = (ok (f s), s)

  -- A call of the repository: it writes, and returns.
  abbrev pub call : {A : Type ℓ} → (S → S × A) → Exec S E A
  call f s = let (s', a) = f s in (ok a, s')

  -- `if value is None: raise e`
  abbrev pub required : {A : Type ℓ} → E → Option A → Exec S E A
  required e none = raise e
  required e (some a) = return a

  -- `if not test: raise e`
  abbrev pub guard : Bool → E → Exec S E (Unit {ℓ})
  guard true e = return tt
  guard false e = raise e

  abbrev next : {A B : Type ℓ} → Result E A → (A → Exec S E B) → Exec S E B
  next (ok a) f s = f a s
  next (err e) f s = (err e, s)

  infixl 10 ◌>>=◌ ◌>>◌
  abbrev pub ◌>>=◌ : {A B : Type ℓ} → Exec S E A → (A → Exec S E B) → Exec S E B
  ◌>>=◌ m f s = let (r, s') = m s in next r f s'

  abbrev pub ◌>>◌ : {A B : Type ℓ} → Exec S E A → Exec S E B → Exec S E B
  m >> k = m >>= λ _. k
