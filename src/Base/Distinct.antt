-- ===== src/Base/Distinct.antt =====
-- Lists of identifiers in which none stands twice.
use Prim.Native.Nat.{ℕ, ◌+◌, ◌≤◌}
use mathlib.Core.Path.{◌≡◌, refl}
use mathlib.Core.Logic.{inl, inr}
use mathlib.Core.Bool.{true, false}
use mathlib.Core.List.{List, [], ◌∷◌, ◌++◌, map}
use native.Mathlib.Omega.{arith}
use uptime_platform.Base.Tests.{◌==◌, Bool-cases}
use uptime_platform.Base.Lists.{count, count-map, mem, All}

abbrev pub times : ℕ → List ℕ → ℕ
times k ks = count (λ j. j == k) ks

abbrev pub IsDistinct : List ℕ → Type 0
IsDistinct ks = (k : ℕ) → times k ks ≤ 1

times-append : (k : ℕ) (xs ys : List ℕ) → times k (xs ++ ys) ≡ times k xs + times k ys
unfolding count
times-append k [] ys = omega arith
times-append k (x ∷ xs) ys = omega (arith, times-append k xs ys)

times-absent : (k : ℕ) (ks : List ℕ) → mem k ks ≡ false → times k ks ≡ 0
unfolding count mem
times-absent k [] h = refl
times-absent k (j ∷ ks) h = ground (arith, times-absent k ks)

times-excluded :
    (k : ℕ) (ks js : List ℕ) → All (λ j. mem j ks ≡ false) js → mem k ks ≡ true → times k js ≡ 0
unfolding count
times-excluded k ks [] h e = refl
times-excluded k ks (j ∷ js) h e = ground (arith, h.0, times-excluded k ks js (h.1) e)

-- The identifiers of objects, if each is that of one object at most.
pub map-IsDistinct {ℓ} :
    {A : Type ℓ} (id : A → ℕ) (xs : List A)
    → ((k : ℕ) → count (λ x. id x == k) xs ≤ 1)
    → IsDistinct (map id xs)
map-IsDistinct id xs once k = omega (arith, count-map (λ j. j == k) id xs, once k)

-- Distinct identifiers that are not yet in a distinct list may join it.
pub append-IsDistinct :
    (ks js : List ℕ)
    → IsDistinct ks
    → IsDistinct js
    → All (λ j. mem j ks ≡ false) js
    → IsDistinct (ks ++ js)
append-IsDistinct ks js d d' absent k = elim (Bool-cases (mem k ks)) [
  | inl e ↦ omega (arith, times-append k ks js, times-excluded k ks js absent e, d k)
  | inr e ↦ omega (arith, times-append k ks js, times-absent k ks e, d' k)
]
