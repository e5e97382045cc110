-- ===== src/Base/Dict/Values.antt =====
-- A dict that stores each object under its own identifier, and what a scan of its values finds.
use uptime_platform.Base.Tests.{some_inj, ◌==◌, Bool-cases, bit}
use uptime_platform.Base.Lists.{All, find?, count}
use Prim.Native.Nat.{ℕ, ◌+◌, ◌≤◌}
use mathlib.Core.Path.{subst, ◌≡◌, refl}
use mathlib.Core.Logic.{inl, inr}
use mathlib.Core.Bool.{Bool}
use mathlib.Core.Option.{Option, none, some}
use mathlib.Core.List.{[], ◌∷◌}
use native.Mathlib.Omega.{arith}
use uptime_platform.Base.Dict.Defs.{Dict, get, put, del, values, get-put, get-del}

-- What the test counts of a stored object, none if the key is absent.
abbrev pub tally {ℓ} : {V : Type ℓ} → (V → Bool) → Option V → ℕ
tally p none = 0
tally p (some v) = bit (p v)

module _ {ℓ} {V : Type ℓ} (id : V → ℕ) where
  -- Every object stands under its identifier, and no key twice.
  abbrev pub IsKeyed : Dict V → Type ℓ
  IsKeyed [] = Unit
  IsKeyed ((k, v) ∷ d) = (id v ≡ k) × (get d k ≡ none) × IsKeyed d

  pub put-IsKeyed : (d : Dict V) (v : V) → IsKeyed d → IsKeyed (put d (id v) v)
  unfolding put get
  put-IsKeyed [] v h = (refl, refl, tt)
  put-IsKeyed ((j, w) ∷ d) v h = elim (Bool-cases (j == id v)) [
    | inl e ↦ rw e (refl, ground arith, h.2)
    | inr e ↦ rw e (h.0, ground (arith, get-put d (id v) j v), put-IsKeyed d v h.2)
  ]

  pub put-IsKeyed_at : (d : Dict V) (k : ℕ) (v : V) → id v ≡ k → IsKeyed d → IsKeyed (put d k v)
  put-IsKeyed_at d k v e h = subst (λ j. IsKeyed (put d j v)) e (put-IsKeyed d v h)

  pub del-IsKeyed : (d : Dict V) (k : ℕ) → IsKeyed d → IsKeyed (del d k)
  unfolding del get
  del-IsKeyed [] k h = tt
  del-IsKeyed ((j, w) ∷ d) k h = elim (Bool-cases (j == k)) [
    | inl e ↦ rw e (del-IsKeyed d k h.2)
    | inr e ↦ rw e (h.0, ground (arith, get-del d k j), del-IsKeyed d k h.2)
  ]

  -- A scan that finds an object finds it where its identifier leads.
  pub get-find? :
      (p : V → Bool) (d : Dict V) {v : V}
      → IsKeyed d
      → find? p (values d) ≡ some v
      → get d (id v) ≡ some v
  unfolding find? get
  get-find? p [] h e = cc
  get-find? p ((j, w) ∷ d) {v} h e = elim (Bool-cases (p w)) [
    | inl t ↦ ground arith
    | inr f ↦ ground (arith, get-find? p d {v = v} h.2)
  ]

  pub get-id : (d : Dict V) {k : ℕ} {v : V} → IsKeyed d → get d k ≡ some v → id v ≡ k
  unfolding get
  get-id [] h e = cc
  get-id ((j, w) ∷ d) {k} {v} h e = ground (arith, get-id d {k = k} {v = v} h.2)

module _ {ℓ} {V : Type ℓ} where
  -- A write replaces what the key held in the count.
  pub count-put :
      (p : V → Bool) (d : Dict V) (k : ℕ) (v : V)
      → count p (values (put d k v)) + tally p (get d k) ≡ count p (values d) + bit (p v)
  unfolding count put get
  count-put p [] k v = omega arith
  count-put p ((j, w) ∷ d) k v = ground (arith, count-put p d k v)

  pub del_absent : (d : Dict V) (k : ℕ) → get d k ≡ none → del d k ≡ d
  unfolding del get
  del_absent [] k h = refl
  del_absent ((j, w) ∷ d) k h = ground (arith, del_absent d k)

module _ {ℓ κ} {V : Type ℓ} (P : V → Type κ) where
  pub All-put : (d : Dict V) (k : ℕ) (v : V) → All P (values d) → P v → All P (values (put d k v))
  unfolding put
  All-put [] k v h pv = (pv, tt)
  All-put ((j, w) ∷ d) k v h pv = elim (Bool-cases (j == k)) [
    | inl e ↦ rw e (pv, h.1)
    | inr e ↦ rw e (h.0, All-put d k v h.1 pv)
  ]

  pub All-del : (d : Dict V) (k : ℕ) → All P (values d) → All P (values (del d k))
  unfolding del
  All-del [] k h = tt
  All-del ((j, w) ∷ d) k h = elim (Bool-cases (j == k)) [
    | inl e ↦ rw e (All-del d k h.1)
    | inr e ↦ rw e (h.0, All-del d k h.1)
  ]

  pub get-All : (d : Dict V) (k : ℕ) {v : V} → All P (values d) → get d k ≡ some v → P v
  unfolding get
  get-All [] k h e = cc
  get-All ((j, w) ∷ d) k h e = elim (Bool-cases (j == k)) [
    | inl t ↦ rw (some_inj (rw t at e)) at h.0
    | inr f ↦ get-All d k h.1 (rw f at e)
  ]

  -- What holds of every object that a lookup can return holds of all values.
  pub values-All :
      (id : V → ℕ) (d : Dict V)
      → IsKeyed id d
      → ((k : ℕ) (v : V) → get d k ≡ some v → P v)
      → All P (values d)
  unfolding get
  values-All id [] h f = tt
  values-All id ((j, w) ∷ d) h f =
      (f j w (ground arith), values-All id d h.2 λ k v e. f k v (ground arith))

module _ {ℓ} {V : Type ℓ} (id : V → ℕ) where
  count-absent :
      (d : Dict V) (k : ℕ) → IsKeyed id d → get d k ≡ none → count (λ v. id v == k) (values d) ≡ 0
  unfolding count get
  count-absent [] k h e = refl
  count-absent ((j, v) ∷ d) k h e = ground (arith, count-absent d k h.2)

  pub count-id-le : (d : Dict V) (k : ℕ) → IsKeyed id d → count (λ v. id v == k) (values d) ≤ 1
  unfolding count get
  count-id-le [] k h = omega arith
  count-id-le ((j, v) ∷ d) k h = ground (arith, count-absent d j h.2, count-id-le d k h.2)

-- A deletion takes what the key held out of the count.
pub count-del {ℓ} :
    {V : Type ℓ} (id : V → ℕ) (p : V → Bool) (d : Dict V) (k : ℕ)
    → IsKeyed id d
    → count p (values (del d k)) + tally p (get d k) ≡ count p (values d)
unfolding count del get
count-del id p [] k h = omega arith
count-del id p ((j, v) ∷ d) k h = ground (arith, count-del id p d k h.2, del_absent d k)
