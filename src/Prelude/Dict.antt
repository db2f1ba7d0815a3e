-- ===== src/Prelude/Dict.antt =====
-- JavaScript objects used as maps with text keys: an association list in insertion order.
-- (Keys that look like array indices would be enumerated first; no key here does.)
pub mod Keys
use Prim.Native.String.{String}
use mathlib.Core.Path.{◌≡◌, refl}
use mathlib.Core.Option.{Option, none, some}
use mathlib.Core.List.{List, [], ◌∷◌}
use native.Mathlib.Omega.{arith}
use text.Mathlib.Text.{◌==◌}
use text.Mathlib.TextEquality.{eq_iff}
use ev_factory_twin.Prelude.Tests.{if◌then◌else◌}

abbrev pub Dict {ℓ} : Type ℓ → Type ℓ
Dict V = List (String × V)

module _ {ℓ} {V : Type ℓ} where
  -- `m[k]`
  unfoldable pub lookup : String → Dict V → Option V
  lookup k [] = none
  lookup k ((j, v) ∷ m) = let rest = lookup k m in if j == k then some v else rest

  -- `{ ...m, [k]: v }`: an old key keeps its place.
  unfoldable pub insert : String → V → Dict V → Dict V
  insert k v [] = (k, v) ∷ []
  insert k v ((j, w) ∷ m) = let rest = insert k v m in if j == k then (j, v) ∷ m else (j, w) ∷ rest

  -- `{ ...m, ...Object.fromEntries(entries) }`: of two entries with one key the later one counts.
  unfoldable pub merge : Dict V → List (String × V) → Dict V
  merge m [] = m
  merge m ((k, v) ∷ entries) = merge (insert k v m) entries

  -- `Object.fromEntries(entries)`
  unfoldable pub from_entries : List (String × V) → Dict V
  unfolding merge
  from_entries entries = merge [] entries

  -- What the last entry for a key says, or else the default.
  abbrev pub last_entry : String → Option V → List (String × V) → Option V
  last_entry k d [] = d
  last_entry k d ((j, v) ∷ entries) = last_entry k (if j == k then some v else d) entries

  pub lookup-insert :
      (key other : String) (value : V) (dict : Dict V)
      → lookup other (insert key value dict)
        ≡ (if key == other then some value else lookup other dict)
  unfolding lookup insert
  lookup-insert key other value [] = refl
  lookup-insert key other value ((first, old) ∷ dict) = ground (
    arith,
    lookup-insert key other value dict,
    eq_iff first other,
    eq_iff first key,
    eq_iff key other,
  )

  pub lookup-merge :
      (k : String) (entries : List (String × V)) (m : Dict V)
      → lookup k (merge m entries) ≡ last_entry k (lookup k m) entries
  unfolding merge
  lookup-merge k [] m = refl
  lookup-merge k ((j, v) ∷ entries) m =
      ground (arith, lookup-merge k entries (insert j v m), lookup-insert j k v m)
