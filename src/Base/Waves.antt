-- ===== src/Base/Waves.antt =====
-- The `while` of a `run_once`: waves of claims until the batch is full or a claim comes back empty,
-- as the scheduler and the notification worker run it.
use mathlib.Core.Path.{subst, ◌≡◌, refl, sym, ◌∙◌}
use mathlib.Core.Logic.{inl, inr}
use mathlib.Core.Bool.{Bool, true, false, ◌&&◌}
use mathlib.Core.Option.{Option, none, some}
use mathlib.Core.List.{List, [], ◌∷◌, ◌++◌, map}
use native.Mathlib.Omega.{arith}
use Prim.Native.Nat.{ℕ, zero, suc, ◌+◌, ◌≤◌, ◌<◌}
use uptime_platform.Base.Tests.{ltb, Bool-cases}
use uptime_platform.Base.Lists.{length, length-append}
use uptime_platform.Base.Result.{Result, ok, err, Result-cases}

-- What a cycle leaves: the store, the identifiers that were attempted, and whether all went well.
pub record Cycled (S : Type 0) : Type 0 where
  pub store : S
  pub attempted : List ℕ
  pub successful : Bool

-- An end without an exception, or with one that is among those expected.
abbrev pub IsEnd : {S E : Type 0} → (E → Type 0) → Result E (Cycled S) → Type 0
IsEnd Expected (ok out) = Unit
IsEnd Expected (err e) = Expected e

module _ {S C E : Type 0} (batch_size : ℕ) (id : C → ℕ)
    (claim : (i : ℕ) (attempted : List ℕ) → S → Result E (S × List C))
    (run_wave : (i : ℕ) → List C → S → S × Bool) where
  -- On fuel; `none` is fuel that ran out. The number of the wave is `i`.
  unfoldable pub waves :
      (fuel i : ℕ) (attempted : List ℕ) (successful : Bool) → S → Option (Result E (Cycled S))
  waves zero i attempted successful s = none
  waves (suc fuel) i attempted successful s = elim (ltb (length attempted) batch_size) [
    | false ↦ some (ok (record { store = s; attempted = attempted; successful = successful }))
    | true ↦ elim (claim i attempted s) [
      | err e ↦ some (err e)
      | ok (s', []) ↦
          some (ok (record { store = s'; attempted = attempted; successful = successful }))
      | ok (s', c ∷ cs) ↦
          let (s'', done) = run_wave i (c ∷ cs) s' in
          waves fuel (suc i) (attempted ++ map id (c ∷ cs)) (successful && done) s''
    ]
  ]

  abbrev ended : S → List ℕ → Bool → Option (Result E (Cycled S))
  ended s attempted successful =
      some (ok (record { store = s; attempted = attempted; successful = successful }))

  module _ (fuel i : ℕ) (attempted : List ℕ) (successful : Bool) (s : S) where
    waves-full :
        ltb (length attempted) batch_size ≡ false
        → waves (suc fuel) i attempted successful s ≡ ended s attempted successful
    unfolding waves
    waves-full e = rw (e, waves) refl

    waves-raise :
        (x : E)
        → ltb (length attempted) batch_size ≡ true
        → claim i attempted s ≡ err x
        → waves (suc fuel) i attempted successful s ≡ some (err x)
    unfolding waves
    waves-raise x e h = rw (e, h, waves) refl

    waves-empty :
        (s' : S)
        → ltb (length attempted) batch_size ≡ true
        → claim i attempted s ≡ ok (s', [])
        → waves (suc fuel) i attempted successful s ≡ ended s' attempted successful
    unfolding waves
    waves-empty s' e h = rw (e, h, waves) refl

    waves-wave :
        (s' : S) (c : C) (cs : List C)
        → ltb (length attempted) batch_size ≡ true
        → claim i attempted s ≡ ok (s', c ∷ cs)
        → waves (suc fuel) i attempted successful s
          ≡ waves fuel
              (suc i)
              (attempted ++ map id (c ∷ cs))
              (successful && (run_wave i (c ∷ cs) s').1)
              (run_wave i (c ∷ cs) s').0
    unfolding waves
    waves-wave s' c cs e h = rw (e, h, waves) refl

  module _ (Expected : E → Type 0)
      (expected : (i : ℕ) (attempted : List ℕ) (s : S) (e : E)
        → length attempted < batch_size
        → claim i attempted s ≡ err e
        → Expected e) where
    -- Fuel for each free place and one more is enough, and only a claim raises.
    pub waves_stop :
        (fuel i : ℕ) (attempted : List ℕ) (successful : Bool) (s : S)
        → batch_size ≤ fuel + length attempted
        → (out : Result E (Cycled S)) × (waves (suc fuel) i attempted successful s ≡ some out)
          × IsEnd Expected out
    waves_stop zero i attempted successful s h =
        (_, waves-full zero i attempted successful s (ground arith), tt)
    waves_stop (suc fuel) i attempted successful s h =
        elim (Bool-cases (ltb (length attempted) batch_size)) [
          | inr e ↦ (_, waves-full (suc fuel) i attempted successful s e, tt)
          | inl e ↦ elim (Result-cases (claim i attempted s)) [
            | inr (x, h') ↦ (
              _,
              waves-raise (suc fuel) i attempted successful s x e h',
              expected i attempted s x (ground arith) h',
            )
            | inl ((s', []), h') ↦ (_, waves-empty (suc fuel) i attempted successful s s' e h', tt)
            | inl ((s', c ∷ cs), h') ↦
                let (s'', done) = run_wave i (c ∷ cs) s' in
                let (out, stopped, end) =
                  waves_stop fuel (suc i) (attempted ++ map id (c ∷ cs)) (successful && done) s''
                    (omega (arith, length-append attempted (map id (c ∷ cs)))) in
                (out, waves-wave (suc fuel) i attempted successful s s' c cs e h' ∙ stopped, end)
          ]
        ]

  ended-inj :
      {a b : Cycled S} → ◌≡◌ {A = Option (Result E (Cycled S))} (some (ok a)) (some (ok b)) → a ≡ b
  ended-inj e = cc

  not_raised :
      {a : Cycled S} {e : E}
      → ◌≡◌ {A = Option (Result E (Cycled S))} (some (err e)) (some (ok a))
      → ⊥
  not_raised e = cc

  -- A relation between what was attempted and the store that an empty claim and every wave keep
  -- holds at the end.
  module _ (Inv : List ℕ → S → Type 0)
      (on_empty : (i : ℕ) (attempted : List ℕ) (s s' : S)
        → Inv attempted s
        → claim i attempted s ≡ ok (s', [])
        → Inv attempted s')
      (on_wave : (i : ℕ) (attempted : List ℕ) (s s' : S) (c : C) (cs : List C)
        → Inv attempted s
        → claim i attempted s ≡ ok (s', c ∷ cs)
        → Inv (attempted ++ map id (c ∷ cs)) (run_wave i (c ∷ cs) s').0) where
    abbrev At : Cycled S → Type 0
    At out = Inv out.attempted out.store

    pub waves-invariant :
        (fuel i : ℕ) (attempted : List ℕ) (successful : Bool) (s : S) (out : Cycled S)
        → Inv attempted s
        → waves fuel i attempted successful s ≡ some (ok out)
        → Inv out.attempted out.store
    unfolding waves
    waves-invariant zero i attempted successful s out inv h = cc
    waves-invariant (suc fuel) i attempted successful s out inv h =
        elim (Bool-cases (ltb (length attempted) batch_size)) [
          | inr e ↦ subst At (ended-inj (sym (waves-full fuel i attempted successful s e) ∙ h)) inv
          | inl e ↦ elim (Result-cases (claim i attempted s)) [
            | inr (x, h') ↦
                absurd (not_raised (sym (waves-raise fuel i attempted successful s x e h') ∙ h))
            | inl ((s', []), h') ↦
                subst At (ended-inj (sym (waves-empty fuel i attempted successful s s' e h') ∙ h))
                  (on_empty i attempted s s' inv h')
            | inl ((s', c ∷ cs), h') ↦
                waves-invariant fuel (suc i) (attempted ++ map id (c ∷ cs)) _ _ out
                  (on_wave i attempted s s' c cs inv h')
                  (sym (waves-wave fuel i attempted successful s s' c cs e h') ∙ h)
          ]
        ]
