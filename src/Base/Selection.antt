-- ===== src/Base/Selection.antt =====
-- The first elements of a finite set in an order: what ORDER BY with LIMIT gives, and what a slice of
-- a sorted list gives.
use mathlib.Core.Path.{◌≡◌, refl, sym, ap, ◌∙◌, subst}
use mathlib.Core.Logic.{◌≢◌, ◌⊎◌, inl, inr}
use mathlib.Core.Bool.{Bool, true, false}
use mathlib.Core.List.{List, [], ◌∷◌}
use native.Mathlib.Omega.{arith}
use Prim.Native.Nat.{ℕ, zero, suc, ◌≤◌}
use uptime_platform.Base.Tests.{◌==◌}
use uptime_platform.Base.Lists.{All, All-imp, All-In, All-both, In, count, length}
use uptime_platform.Base.Sort.{IsSorted}

-- `before` decides any two elements with different identifiers.
pub record IsOrder {A : Type 0} (id : A → ℕ) (before : A → A → Bool) : Type 0 where
  pub total : (x y : A) → before x y ≡ false → before y x ≡ true
  pub trans : (x y z : A) → before x y ≡ true → before y z ≡ true → before x z ≡ true
  pub anti : (x y : A) → before x y ≡ true → before y x ≡ true → id x ≡ id y

-- The elements are all there, or the limit is reached and each of them stands before `y`.
abbrev pub Chosen : {A : Type 0} → (A → A → Bool) → ℕ → List A → A → Type 0
Chosen before n xs y = In y xs ⊎ ((length xs ≡ n) × All (λ x. before x y ≡ true) xs)

-- The first `n` elements of `S` in their order.
pub record IsFirst {A : Type 0} (id : A → ℕ) (before : A → A → Bool) (S : A → Type 0) (n : ℕ)
    (xs : List A) : Type 0 where
  pub members : All S xs
  pub sorted : IsSorted before xs
  pub once : (k : ℕ) → count (λ x. id x == k) xs ≤ 1
  pub room : length xs ≤ n
  pub chosen : (y : A) → S y → Chosen before n xs y

module _ {A : Type 0} (id : A → ℕ) (before : A → A → Bool) where
  absent : (k : ℕ) (xs : List A) → count (λ x. id x == k) xs ≡ 0 → All (λ x. id x ≢ k) xs
  unfolding count
  absent k [] h = tt
  absent k (x ∷ xs) h = ((λ e. ground (arith, e, h)), absent k xs (ground (arith, h)))

  module _ (S : A → Type 0) (a : A) where
    abbrev Other : A → Type 0
    Other x = S x × (id x ≢ id a)

    tail-IsFirst :
        (n : ℕ) (xs : List A) → IsFirst id before S (suc n) (a ∷ xs) → IsFirst id before Other n xs
    unfolding count
    tail-IsFirst n xs first = record {
      members =
          All-both S (λ x. id x ≢ id a) xs first.members.1
            (absent (id a) xs (ground (arith, first.once (id a))));
      sorted = first.sorted.1;
      once = λ k. omega (arith, first.once k);
      room = omega (arith, first.room);
      chosen = λ y (sy, other). later y other (first.chosen y sy);
    }
      where
        later : (y : A) → id y ≢ id a → Chosen before (suc n) (a ∷ xs) y → Chosen before n xs y
        later y other (inl (inl e)) = absurd (other (ap id e))
        later y other (inl (inr i)) = inl i
        later y other (inr (full, h)) = inr (omega (arith, full), h.1)

  -- The head of a selection stands before what it is chosen from, or is it.
  head-before :
      (S : A → Type 0) (n : ℕ) (a y : A) (xs : List A)
      → IsFirst id before S n (a ∷ xs)
      → S y
      → (y ≡ a) ⊎ (before a y ≡ true)
  head-before S n a y xs first sy = by (first.chosen y sy)
    where
      by : Chosen before n (a ∷ xs) y → (y ≡ a) ⊎ (before a y ≡ true)
      by (inl (inl e)) = inl e
      by (inl (inr i)) = inr (All-In (λ x. before a x ≡ true) xs first.sorted.0 i)
      by (inr (full, h)) = inr (h.0)

  nothing_chosen :
      (S : A → Type 0) (n : ℕ) (b : A) (ys : List A)
      → IsFirst id before S n []
      → IsFirst id before S n (b ∷ ys)
      → ⊥
  nothing_chosen S n b ys empty first = by (empty.chosen b first.members.0)
    where
      by : Chosen before n [] b → ⊥
      by (inl i) = i
      by (inr (full, _)) = absurd (omega (arith, full, first.room))

  module _ (order : IsOrder id before) where
    head_same :
        (S : A → Type 0) (n : ℕ) (a b : A) (xs ys : List A)
        → ((x y : A) → S x → S y → id x ≡ id y → x ≡ y)
        → IsFirst id before S n (a ∷ xs)
        → IsFirst id before S n (b ∷ ys)
        → a ≡ b
    head_same S n a b xs ys same first second =
        by (head-before S n a b xs first second.members.0)
          (head-before S n b a ys second first.members.0)
      where
        by : (b ≡ a) ⊎ (before a b ≡ true) → (a ≡ b) ⊎ (before b a ≡ true) → a ≡ b
        by (inl e) h = sym e
        by (inr h) (inl e) = e
        by (inr h) (inr k) = same a b first.members.0 second.members.0 (order.anti a b h k)

    -- There is one such list.
    pub IsFirst-unique :
        (S : A → Type 0) (n : ℕ) (xs ys : List A)
        → ((x y : A) → S x → S y → id x ≡ id y → x ≡ y)
        → IsFirst id before S n xs
        → IsFirst id before S n ys
        → xs ≡ ys
    IsFirst-unique S n [] [] same first second = refl
    IsFirst-unique S n [] (b ∷ ys) same first second = absurd (nothing_chosen S n b ys first second)
    IsFirst-unique S n (a ∷ xs) [] same first second = absurd (nothing_chosen S n a xs second first)
    IsFirst-unique S zero (a ∷ xs) (b ∷ ys) same first second = absurd (omega (arith, first.room))
    IsFirst-unique S (suc n) (a ∷ xs) (b ∷ ys) same first second =
        let e = head_same S (suc n) a b xs ys same first second in
        let second' = subst (λ c. IsFirst id before S (suc n) (c ∷ ys)) (sym e) second in
        let rest =
          IsFirst-unique (Other S a) n xs ys (λ x y h k. same x y h.0 k.0)
            (tail-IsFirst S a n xs first) (tail-IsFirst S a n ys second') in
        ap (λ c. c ∷ xs) e ∙ ap (λ zs. b ∷ zs) rest

pub IsFirst-same :
    {A : Type 0} (id : A → ℕ) (before : A → A → Bool) (S S' : A → Type 0) (n : ℕ) (xs : List A)
    → ((x : A) → S x → S' x)
    → ((x : A) → S' x → S x)
    → IsFirst id before S n xs
    → IsFirst id before S' n xs
IsFirst-same id before S S' n xs to of first = record {
  members = All-imp to xs first.members;
  sorted = first.sorted;
  once = first.once;
  room = first.room;
  chosen = λ y sy. first.chosen y (of y sy);
}
