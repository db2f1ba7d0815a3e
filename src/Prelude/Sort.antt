-- ===== src/Prelude/Sort.antt =====
-- `Array.prototype.sort`, which is stable, with a comparator that says when the right member
-- belongs before the left one.
use mathlib.Core.Path.{◌≡◌}
use mathlib.Core.Bool.{Bool, true, false}
use mathlib.Core.List.{List, [], ◌∷◌, Perm}
use mathlib.Core.List.Perm
use mathlib.Core.Logic.{inl, inr}
use ev_factory_twin.Prelude.Tests.{if◌then◌else◌, Bool-cases}
use ev_factory_twin.Prelude.Lists.{All}

module _ {ℓ} {A : Type ℓ} (before : A → A → Bool) where
  -- `x` goes behind the members that belong before it, and ahead of its equals.
  pub insert_sorted : A → List A → List A
  insert_sorted x [] = x ∷ []
  insert_sorted x (y ∷ ys) =
      let rest = insert_sorted x ys in if before y x then y ∷ rest else x ∷ y ∷ ys

  unfoldable pub sort : List A → List A
  unfolding insert_sorted
  sort [] = []
  sort (x ∷ xs) = insert_sorted x (sort xs)

  insert_sorted-perm : (x : A) (ys : List A) → Perm (insert_sorted x ys) (x ∷ ys)
  unfolding insert_sorted
  insert_sorted-perm x [] = Perm.refl _
  insert_sorted-perm x (y ∷ ys) = elim (Bool-cases (before y x)) [
    | inl e ↦ rw e (Perm.trans (Perm.cons y (insert_sorted-perm x ys)) (Perm.swap x y ys))
    | inr e ↦ rw e (Perm.refl _)
  ]

  pub sort-perm : (xs : List A) → Perm (sort xs) xs
  unfolding sort
  sort-perm [] = Perm.refl _
  sort-perm (x ∷ xs) = Perm.trans (insert_sorted-perm x (sort xs)) (Perm.cons x (sort-perm xs))

  -- No member belongs before an earlier one.
  abbrev pub IsSorted : List A → Type ℓ
  IsSorted [] = Unit
  IsSorted (x ∷ xs) = All (λ y. before y x ≡ false) xs × IsSorted xs

  All-insert_sorted {κ} :
      (Q : A → Type κ) (x : A) (ys : List A) → Q x → All Q ys → All Q (insert_sorted x ys)
  unfolding insert_sorted
  All-insert_sorted Q x [] q h = (q, tt)
  All-insert_sorted Q x (y ∷ ys) q h = elim (Bool-cases (before y x)) [
    | inl e ↦ rw e (h.0, All-insert_sorted Q x ys q h.1)
    | inr e ↦ rw e (q, h)
  ]

  pub All-sort {κ} : (Q : A → Type κ) (xs : List A) → All Q xs → All Q (sort xs)
  unfolding sort
  All-sort Q [] h = tt
  All-sort Q (x ∷ xs) h = All-insert_sorted Q x (sort xs) h.0 (All-sort Q xs h.1)

  All-of-insert_sorted {κ} :
      (Q : A → Type κ) (x : A) (ys : List A) → All Q (insert_sorted x ys) → Q x × All Q ys
  unfolding insert_sorted
  All-of-insert_sorted Q x [] h = h
  All-of-insert_sorted Q x (y ∷ ys) h = elim (Bool-cases (before y x)) [
    | inl e ↦ let k = rw e at h in let (q, r) = All-of-insert_sorted Q x ys k.1 in (q, (k.0, r))
    | inr e ↦ rw e at h
  ]

  pub All-of-sort {κ} : (Q : A → Type κ) (xs : List A) → All Q (sort xs) → All Q xs
  unfolding sort
  All-of-sort Q [] h = tt
  All-of-sort Q (x ∷ xs) h =
      let (q, r) = All-of-insert_sorted Q x (sort xs) h in (q, All-of-sort Q xs r)

-- Where the comparator is a strict weak order of the members, the result is sorted.
module _ {ℓ κ} {A : Type ℓ} (before : A → A → Bool) (P : A → Type κ)
    (asym : (x y : A) → P x → P y → before x y ≡ true → before y x ≡ false)
    (chain : (x y z : A)
      → P x
      → P y
      → P z
      → before x y ≡ false
      → before y z ≡ false
      → before x z ≡ false) where
  chain-All :
      (x y : A) (zs : List A)
      → P x
      → P y
      → before y x ≡ false
      → All P zs
      → All (λ z. before z y ≡ false) zs
      → All (λ z. before z x ≡ false) zs
  chain-All x y [] px py e ps h = tt
  chain-All x y (z ∷ zs) px py e ps h =
      (chain z y x ps.0 py px h.0 e, chain-All x y zs px py e ps.1 h.1)

  insert_sorted-IsSorted :
      (x : A) (ys : List A)
      → P x
      → All P ys
      → IsSorted before ys
      → IsSorted before (insert_sorted before x ys)
  unfolding insert_sorted
  insert_sorted-IsSorted x [] px ps h = (tt, tt)
  insert_sorted-IsSorted x (y ∷ ys) px ps h = elim (Bool-cases (before y x)) [
    | inl e ↦ rw e (
      All-insert_sorted before (λ z. before z y ≡ false) x ys (asym y x ps.0 px e) h.0,
      insert_sorted-IsSorted x ys px ps.1 h.1,
    )
    | inr e ↦ rw e ((e, chain-All x y ys px ps.0 e ps.1 h.0), h)
  ]

  pub sort-IsSorted : (xs : List A) → All P xs → IsSorted before (sort before xs)
  unfolding sort
  sort-IsSorted [] h = tt
  sort-IsSorted (x ∷ xs) h =
      insert_sorted-IsSorted x (sort before xs) h.0 (All-sort before P xs h.1)
        (sort-IsSorted xs h.1)
