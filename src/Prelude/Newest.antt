-- ===== src/Prelude/Newest.antt =====
-- The pattern `xs.filter(p).sort(newest first)[0]`: which member it finds.
use Prim.Native.Nat.{ℕ}
use mathlib.Core.Path.{◌≡◌, refl, sym, ap, subst}
use mathlib.Core.Bool.{Bool, true, false}
use mathlib.Core.Logic.{◌≢◌, inl, inr}
use mathlib.Core.List.{List, [], ◌∷◌, ◌++◌}
use mathlib.Core.Option.{Option, none, some}
use native.Mathlib.Omega.{arith}
use ev_factory_twin.Prelude.Tests.{Bool-cases}
use ev_factory_twin.Prelude.Lists.{All, All-filter, All-filter_test, All-map_of, filter, any, head?}
use ev_factory_twin.Prelude.Sort.{sort, IsSorted, sort-IsSorted, All-sort, All-of-sort}
use ev_factory_twin.Prelude.Dates.{later, later_asym, later_chain}

module _ {ℓ} {A : Type ℓ} where
  abbrev pub IsMember : A → List A → Type ℓ
  IsMember x xs = (front : List A) × (back : List A) × (xs ≡ front ++ x ∷ back)

  IsMember-cons : (y : A) (xs : List A) (x : A) → IsMember x xs → IsMember x (y ∷ xs)
  IsMember-cons y xs x (front, back, split) = (y ∷ front, back, ap (◌∷◌ y) split)

  All-IsMember : (xs : List A) → All (λ x. IsMember x xs) xs
  All-IsMember [] = tt
  All-IsMember (x ∷ xs) = (([], xs, refl), All-map_of xs (IsMember-cons x xs) (All-IsMember xs))

module _ {A : Type 0} (date : A → Option ℕ) where
  -- `date(right) - date(left)` as a comparator
  abbrev pub newer : A → A → Bool
  newer right left = later (date right) (date left)

  -- The member that passes the test such that no other that does is newer.
  abbrev pub IsNewest : (A → Bool) → List A → Option A → Type 0
  IsNewest p xs none = any p xs ≡ false
  IsNewest p xs (some x) =
      IsMember x xs × (p x ≡ true) × All (λ y. p y ≡ true → newer y x ≡ false) xs

  newer_self : (x : A) → newer x x ≡ false
  newer_self x = elim (Bool-cases (newer x x)) [
    | inl e ↦ later_asym (date x) (date x) e
    | inr e ↦ e
  ]

  unfiltered :
      (p : A → Bool) (x : A) (xs : List A)
      → All (λ y. newer y x ≡ false) (filter p xs)
      → All (λ y. p y ≡ true → newer y x ≡ false) xs
  unfiltered p x [] h = tt
  unfiltered p x (y ∷ xs) h = elim (Bool-cases (p y)) [
    | inl e ↦ let k = rw e at h in ((λ _. k.0), unfiltered p x xs k.1)
    | inr e ↦ let k = rw e at h in ((λ t. cc), unfiltered p x xs k)
  ]

  none_passes : (p : A → Bool) (xs : List A) → filter p xs ≡ [] → any p xs ≡ false
  none_passes p [] h = refl
  none_passes p (x ∷ xs) h = ground (arith, none_passes p xs)

  sort_nil : (xs : List A) → sort newer xs ≡ [] → xs ≡ []
  sort_nil [] h = refl
  sort_nil (x ∷ xs) h = absurd (
      ground (
        arith,
        (All-of-sort newer (λ _. true ≡ false) (x ∷ xs)
            (subst (All (λ _. true ≡ false)) (sym h) tt)).0,
      ))

  head_of_sorted :
      (p : A → Bool) (xs zs : List A)
      → All (λ x. date x ≢ none) xs
      → sort newer (filter p xs) ≡ zs
      → IsNewest p xs (head? zs)
  head_of_sorted p xs [] dated e = none_passes p xs (sort_nil (filter p xs) e)
  head_of_sorted p xs (z ∷ zs) dated e =
      let sorted : IsSorted newer (z ∷ zs) = subst (IsSorted newer) e (
        sort-IsSorted newer (λ x. date x ≢ none) (λ x y _ _. later_asym (date x) (date y))
          (λ x y w dx dy dw. later_chain (date x) (date y) (date w) dx dy dw) (filter p xs)
          (All-filter _ p xs dated)) in
      let passes : All (λ x. p x ≡ true) (z ∷ zs) =
        subst (All (λ x. p x ≡ true)) e (All-sort newer _ (filter p xs) (All-filter_test p xs)) in
      let members : All (λ x. IsMember x xs) (z ∷ zs) =
        subst (All (λ x. IsMember x xs)) e
          (All-sort newer _ (filter p xs) (All-filter _ p xs (All-IsMember xs))) in
      let none_newer : All (λ y. newer y z ≡ false) (filter p xs) =
        All-of-sort newer (λ y. newer y z ≡ false) (filter p xs)
          (subst (All (λ y. newer y z ≡ false)) (sym e) (newer_self z, sorted.0)) in
      (members.0, passes.0, unfiltered p z xs none_newer)

  -- What the pattern finds in a list whose dates can all be read.
  pub sort-filter-IsNewest :
      (p : A → Bool) (xs : List A)
      → All (λ x. date x ≢ none) xs
      → IsNewest p xs (head? (sort newer (filter p xs)))
  sort-filter-IsNewest p xs dated = head_of_sorted p xs (sort newer (filter p xs)) dated refl
