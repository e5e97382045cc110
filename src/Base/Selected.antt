-- ===== src/Base/Selected.antt =====
-- Slices of a sorted list as selections (Base.Selection), and selections under a map.
use mathlib.Core.Path.{◌≡◌, refl, sym, ap, ◌∙◌, subst}
use mathlib.Core.Logic.{◌⊎◌, inl, inr}
use mathlib.Core.Bool.{Bool, true}
use mathlib.Core.Option.{some}
use mathlib.Core.List.{List, [], ◌∷◌, map}
use native.Mathlib.Omega.{arith}
use Prim.Native.Nat.{ℕ, zero, suc, ◌+◌}
use uptime_platform.Base.Tests.{some_inj, ◌==◌, Bool-cases, bit}
use uptime_platform.Base.Lists.{
  All, All-In, All-imp, All-both, All-filter, All-filter_of, All-take, In, count, length, take,
  drop, filter, count-take, count-filter, length-take-le, length-map, All-map,
}
use uptime_platform.Base.Sort.{
  insert, sort, IsSorted, sort-IsSorted, take-before-drop, All-sort, count-sort,
}
use uptime_platform.Base.Dict.{Dict, values, IsKeyed, get, get-id, values-All, count-id-le}
use uptime_platform.Base.Selection.{IsOrder, Chosen, IsFirst}

module _ {A : Type 0} where
  In-filter : (p : A → Bool) (xs : List A) (y : A) → p y ≡ true → In y xs → In y (filter p xs)
  unfolding filter
  In-filter p [] y e i = absurd i
  In-filter p (x ∷ xs) y e (inl h) = rw (sym (ap p h) ∙ e) (inl h)
  In-filter p (x ∷ xs) y e (inr i) = elim (Bool-cases (p x)) [
    | inl t ↦ rw t (inr (In-filter p xs y e i))
    | inr f ↦ rw f (In-filter p xs y e i)
  ]

  In-insert :
      (before : A → A → Bool) (x : A) (xs : List A) (y : A)
      → In y (x ∷ xs)
      → In y (insert before x xs)
  unfolding insert
  In-insert before x [] y i = i
  In-insert before x (z ∷ zs) y i = elim (Bool-cases (before x z)) [
    | inl t ↦ rw t i
    | inr f ↦ rw f (elim i [
      | inl e ↦ inr (In-insert before x zs y (inl e))
      | inr (inl e) ↦ inl e
      | inr (inr j) ↦ inr (In-insert before x zs y (inr j))
    ])
  ]

  In-sort : (before : A → A → Bool) (xs : List A) (y : A) → In y xs → In y (sort before xs)
  unfolding sort
  In-sort before [] y i = absurd i
  In-sort before (x ∷ xs) y (inl e) = In-insert before x (sort before xs) y (inl e)
  In-sort before (x ∷ xs) y (inr i) =
      In-insert before x (sort before xs) y (inr (In-sort before xs y i))

  -- An element of a list is among the first `n`, or after them, and then there are `n` of them.
  In-take :
      (n : ℕ) (xs : List A) (y : A)
      → In y xs
      → In y (take n xs) ⊎ (In y (drop n xs) × (length (take n xs) ≡ n))
  In-take zero xs y i = inr (i, refl)
  In-take (suc n) [] y i = absurd i
  In-take (suc n) (x ∷ xs) y (inl e) = inl (inl e)
  In-take (suc n) (x ∷ xs) y (inr i) = elim (In-take n xs y i) [
    | inl j ↦ inl (inr j)
    | inr (j, full) ↦ inr (j, ap suc full)
  ]

  pub take-IsSorted :
      (before : A → A → Bool) (n : ℕ) (xs : List A)
      → IsSorted before xs
      → IsSorted before (take n xs)
  take-IsSorted before zero xs h = tt
  take-IsSorted before (suc n) [] h = tt
  take-IsSorted before (suc n) (x ∷ xs) h =
      (All-take (λ y. before x y ≡ true) n xs h.0, take-IsSorted before n xs h.1)

module _ {A : Type 0} (id : A → ℕ) (before : A → A → Bool) (order : IsOrder id before) where
  sort_in_order : (xs : List A) → IsSorted before (sort before xs)
  sort_in_order = sort-IsSorted before order.total order.trans

  module _ (p : A → Bool) (d : Dict A) (keyed : IsKeyed id d) where
    abbrev pub Passing : A → Type 0
    Passing x = (p x ≡ true) × (get d (id x) ≡ some x)

    get-In : (d : Dict A) (k : ℕ) (y : A) → get d k ≡ some y → In y (values d)
    unfolding get
    get-In [] k y h = cc
    get-In ((j, x) ∷ d) k y h = elim (Bool-cases (j == k)) [
      | inl t ↦ inl (sym (some_inj (rw t at h)))
      | inr f ↦ inr (get-In d k y (rw f at h))
    ]

    -- The slice of the sorted values that pass.
    pub take-IsFirst :
        (n : ℕ) → IsFirst id before Passing n (take n (sort before (filter p (values d))))
    take-IsFirst n = record {
      members = All-take Passing n (sort before (filter p (values d))) (
          All-sort before Passing (filter p (values d)) (
            All-both (λ x. p x ≡ true) (λ x. get d (id x) ≡ some x) (filter p (values d))
              (All-filter_of (λ x. p x ≡ true) p (λ x e. e) (values d))
              (All-filter (λ x. get d (id x) ≡ some x) p (values d)
                (values-All (λ x. get d (id x) ≡ some x) id d keyed
                  (λ k x e. ap (get d) (get-id id d keyed e) ∙ e)))));
      sorted =
          take-IsSorted before n (sort before (filter p (values d)))
            (sort_in_order (filter p (values d)));
      once = λ k. omega (
        arith,
        count-take (λ x. id x == k) n (sort before (filter p (values d))),
        count-sort before (λ x. id x == k) (filter p (values d)),
        count-filter (λ x. id x == k) p (values d),
        count-id-le id d k keyed,
      );
      room = length-take-le n (sort before (filter p (values d)));
      chosen = λ y (passes, held).
          elim (In-take n (sort before (filter p (values d))) y (
            In-sort before (filter p (values d)) y
              (In-filter p (values d) y passes (get-In d (id y) y held)))) [
                | inl i ↦ inl i
                | inr (i, full) ↦ inr (
                  full,
                  All-In
                      (λ y.
                        All (λ x. before x y ≡ true) (take n (sort before (filter p (values d)))))
                      (drop n (sort before (filter p (values d))))
                      (take-before-drop before n (sort before (filter p (values d)))
                        (sort_in_order (filter p (values d))))
                      i,
                )
              ];
    }

-- A map that keeps the identifiers and the order, and meets all of the other set, keeps a selection.
module _ {A B : Type 0} (id : A → ℕ) (id' : B → ℕ) (before : A → A → Bool) (before' : B → B → Bool)
    (f : A → B) (S : A → Type 0) (S' : B → Type 0) where
  map-IsSorted :
      (xs : List A)
      → ((x y : A) → before' (f x) (f y) ≡ before x y)
      → IsSorted before xs
      → IsSorted before' (map f xs)
  map-IsSorted [] same h = tt
  map-IsSorted (x ∷ xs) same h = (
    All-map (λ y. before' (f x) y ≡ true) f xs (All-imp (λ y e. same x y ∙ e) xs h.0),
    map-IsSorted xs same h.1,
  )

  count-ids :
      (k : ℕ) (xs : List A)
      → ((x : A) → id' (f x) ≡ id x)
      → count (λ y. id' y == k) (map f xs) ≡ count (λ x. id x == k) xs
  unfolding count
  count-ids k [] same = refl
  count-ids k (x ∷ xs) same =
      ap (λ j. bit (j == k) + count (λ y. id' y == k) (map f xs)) (same x)
      ∙ ap (λ n. bit (id x == k) + n) (count-ids k xs same)

  In-map : (x : A) (xs : List A) → In x xs → In (f x) (map f xs)
  In-map x [] i = absurd i
  In-map x (y ∷ xs) (inl e) = inl (ap f e)
  In-map x (y ∷ xs) (inr i) = inr (In-map x xs i)

  pub map-IsFirst :
      (n : ℕ) (xs : List A)
      → ((x : A) → id' (f x) ≡ id x)
      → ((x y : A) → before' (f x) (f y) ≡ before x y)
      → ((x : A) → S x → S' (f x))
      → ((y : B) → S' y → (x : A) × (y ≡ f x) × S x)
      → IsFirst id before S n xs
      → IsFirst id' before' S' n (map f xs)
  map-IsFirst n xs ids same into onto first = record {
    members = All-map S' f xs (All-imp into xs first.members);
    sorted = map-IsSorted xs same first.sorted;
    once = λ k. omega (arith, count-ids k xs ids, first.once k);
    room = omega (arith, length-map f xs, first.room);
    chosen = λ y sy.
        let (x, e, sx) = onto y sy in
        subst (Chosen before' n (map f xs)) (sym e) (image x (first.chosen x sx));
  }
    where
      image : (x : A) → Chosen before n xs x → Chosen before' n (map f xs) (f x)
      image x (inl i) = inl (In-map x xs i)
      image x (inr (full, h)) = inr (
        length-map f xs ∙ full,
        All-map (λ y. before' y (f x) ≡ true) f xs (All-imp (λ y e. same y x ∙ e) xs h),
      )
