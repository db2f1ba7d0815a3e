-- ===== src/Prelude/Index.antt =====
-- What arrays do with their indices.
use Prim.Native.Nat.{ℕ, zero, suc, ◌+◌, ◌≤◌}
use mathlib.Core.Path.{◌≡◌, refl}
use mathlib.Core.List.{List, [], ◌∷◌, map}
use mathlib.Core.Option.{Option, none, some}
use native.Mathlib.Omega.{arith}
use ev_factory_twin.Prelude.Tests.{beq, if◌then◌else◌}
use ev_factory_twin.Prelude.Lists.{length}

module _ {ℓ} {A : Type ℓ} where
  -- `xs[i]`
  abbrev pub get_elem? : List A → ℕ → Option A
  get_elem? [] i = none
  get_elem? (x ∷ xs) zero = some x
  get_elem? (x ∷ xs) (suc i) = get_elem? xs i

  -- `xs.map((x, i) => f(i, x))`, where the first index is `i`
  abbrev pub map_from {κ} : {B : Type κ} → ℕ → (ℕ → A → B) → List A → List B
  map_from i f [] = []
  map_from i f (x ∷ xs) = f i x ∷ map_from (i + 1) f xs

  -- `xs.map((x, i) => i === k ? f(x) : x)`
  abbrev pub map_at : ℕ → (A → A) → List A → List A
  map_at k f xs = map_from 0 (λ i x. if beq i k then f x else x) xs

  -- `xs.filter((_, i) => i !== k)`
  abbrev pub remove_at : ℕ → List A → List A
  remove_at k [] = []
  remove_at zero (x ∷ xs) = xs
  remove_at (suc k) (x ∷ xs) = x ∷ remove_at k xs

  -- `xs.slice(0, -1)`
  abbrev pub drop_last : List A → List A
  drop_last [] = []
  drop_last (x ∷ []) = []
  drop_last (x ∷ y ∷ xs) = x ∷ drop_last (y ∷ xs)

  pub length-map_from {κ} :
      {B : Type κ} (i : ℕ) (f : ℕ → A → B) (xs : List A) → length (map_from i f xs) ≡ length xs
  length-map_from i f [] = refl
  length-map_from i f (x ∷ xs) = omega (arith, length-map_from (i + 1) f xs)

  pub length-drop_last : (xs : List A) → length (drop_last xs) ≤ length xs
  length-drop_last [] = omega arith
  length-drop_last (x ∷ []) = omega arith
  length-drop_last (x ∷ y ∷ xs) = omega (arith, length-drop_last (y ∷ xs))

  -- What reads no change of `f` is as before.
  pub map-map_from {κ} :
      {B : Type κ} (g : A → B) (f : ℕ → A → A)
      → ((i : ℕ) (x : A) → g (f i x) ≡ g x)
      → (i : ℕ) (xs : List A) → map g (map_from i f xs) ≡ map g xs
  map-map_from g f same i [] = refl
  map-map_from g f same i (x ∷ xs) = cc (same i x, map-map_from g f same (i + 1) xs)
