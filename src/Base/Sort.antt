-- ===== src/Base/Sort.antt =====
-- Python's `sorted` and `list.sort`: a stable sort by the test "may stand before".
use mathlib.Core.Logic.{inl, inr}
use mathlib.Core.Bool.{Bool, true, false}
use mathlib.Core.List.{List, [], ◌∷◌}
use uptime_platform.Base.Tests.{if◌then◌else◌, Bool-cases, bit}
use uptime_platform.Base.Lists.{
  take, drop, All-drop, All-both, All-trivial, All, All-imp, count, length,
}
use Prim.Native.Nat.{ℕ, zero, ◌+◌, suc}
use mathlib.Core.Path.{◌≡◌, refl, ap, ◌∙◌}
use native.Mathlib.Omega.{arith}

module _ {ℓ} {A : Type ℓ} (before : A → A → Bool) where
  unfoldable pub insert : A → List A → List A
  insert x [] = x ∷ []
  insert x (y ∷ ys) = let rest = insert x ys in if before x y then x ∷ y ∷ ys else y ∷ rest

  unfoldable pub sort : List A → List A
  unfolding insert
  sort [] = []
  sort (x ∷ xs) = insert x (sort xs)

  -- Each element may stand before every later one.
  abbrev pub IsSorted : List A → Type 0
  IsSorted [] = Unit
  IsSorted (x ∷ xs) = All (λ y. before x y ≡ true) xs × IsSorted xs

module _ {ℓ κ} {A : Type ℓ} (before : A → A → Bool) (P : A → Type κ) where
  All-insert : (x : A) (xs : List A) → P x → All P xs → All P (insert before x xs)
  unfolding insert
  All-insert x [] px h = (px, tt)
  All-insert x (y ∷ ys) px h = elim (Bool-cases (before x y)) [
    | inl e ↦ rw e (px, h)
    | inr e ↦ rw e (h.0, All-insert x ys px h.1)
  ]

  pub All-sort : (xs : List A) → All P xs → All P (sort before xs)
  unfolding sort
  All-sort [] h = tt
  All-sort (x ∷ xs) h = All-insert x (sort before xs) h.0 (All-sort xs h.1)

module _ {ℓ} {A : Type ℓ} (before : A → A → Bool) where
  count-insert :
      (p : A → Bool) (x : A) (xs : List A) → count p (insert before x xs) ≡ bit (p x) + count p xs
  unfolding insert count
  count-insert p x [] = refl
  count-insert p x (y ∷ ys) = ground (arith, count-insert p x ys)

  -- Sorting moves elements and neither drops nor copies any.
  pub count-sort : (p : A → Bool) (xs : List A) → count p (sort before xs) ≡ count p xs
  unfolding sort count
  count-sort p [] = refl
  count-sort p (x ∷ xs) = omega (arith, count-insert p x (sort before xs), count-sort p xs)

  length-insert : (x : A) (xs : List A) → length (insert before x xs) ≡ suc (length xs)
  unfolding insert
  length-insert x [] = refl
  length-insert x (y ∷ ys) = ground (arith, length-insert x ys)

  pub length-sort : (xs : List A) → length (sort before xs) ≡ length xs
  unfolding sort
  length-sort [] = refl
  length-sort (x ∷ xs) = length-insert x (sort before xs) ∙ ap suc (length-sort xs)

  module _ (total : (x y : A) → before x y ≡ false → before y x ≡ true)
      (trans : (x y z : A) → before x y ≡ true → before y z ≡ true → before x z ≡ true) where
    insert-IsSorted :
        (x : A) (xs : List A) → IsSorted before xs → IsSorted before (insert before x xs)
    unfolding insert
    insert-IsSorted x [] h = (tt, tt)
    insert-IsSorted x (y ∷ ys) h = elim (Bool-cases (before x y)) [
      | inl e ↦ rw e ((e, All-imp (λ z q. trans x y z e q) ys h.0), h)
      | inr e ↦ rw e (
        All-insert before (λ z. before y z ≡ true) x ys (total x y e) h.0,
        insert-IsSorted x ys h.1,
      )
    ]

    pub sort-IsSorted : (xs : List A) → IsSorted before (sort before xs)
    unfolding sort
    sort-IsSorted [] = tt
    sort-IsSorted (x ∷ xs) = insert-IsSorted x (sort before xs) (sort-IsSorted xs)

-- In a sorted list each of the first `n` may stand before each of the others.
pub take-before-drop {ℓ} :
    {A : Type ℓ} (before : A → A → Bool) (n : ℕ) (xs : List A)
    → IsSorted before xs
    → All (λ y. All (λ x. before x y ≡ true) (take n xs)) (drop n xs)
take-before-drop before zero xs h = All-trivial xs
take-before-drop before (suc n) [] h = tt
take-before-drop before (suc n) (x ∷ xs) h =
    All-both _ _ (drop n xs) (All-drop (λ y. before x y ≡ true) n xs h.0)
      (take-before-drop before n xs h.1)
