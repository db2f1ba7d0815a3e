-- ===== src/Prelude/Dict/Keys.antt =====
-- Objects with distinct keys, and objects that hold each value under a key of its own.
use Prim.Native.String.{String}
use mathlib.Core.Path.{◌≡◌, refl, sym, ◌∙◌}
use mathlib.Core.Logic.{inl, inr}
use mathlib.Core.Option.{Option, none, some}
use mathlib.Core.List.{List, [], ◌∷◌, map}
use native.Mathlib.Omega.{arith}
use text.Mathlib.Text.{◌==◌}
use text.Mathlib.TextEquality.{eq_iff}
use ev_factory_twin.Prelude.Tests.{Bool-cases}
use ev_factory_twin.Prelude.Lists.{All}
use ev_factory_twin.Prelude.Dict.{
  Dict, lookup, insert, merge, from_entries, last_entry, lookup-insert, lookup-merge,
}

module _ {ℓ} {V : Type ℓ} where
  abbrev pub HasDistinctKeys : Dict V → Type ℓ
  HasDistinctKeys [] = Unit
  HasDistinctKeys ((k, v) ∷ m) = (lookup k m ≡ none) × HasDistinctKeys m

  insert-HasDistinctKeys :
      (k : String) (v : V) (m : Dict V) → HasDistinctKeys m → HasDistinctKeys (insert k v m)
  unfolding insert lookup
  insert-HasDistinctKeys k v [] h = (refl, tt)
  insert-HasDistinctKeys k v ((j, w) ∷ m) h =
      ground
        (arith, lookup-insert k j v m, eq_iff k j, eq_iff j k, insert-HasDistinctKeys k v m h.1)

  merge-HasDistinctKeys :
      (m : Dict V) (entries : List (String × V))
      → HasDistinctKeys m
      → HasDistinctKeys (merge m entries)
  unfolding merge
  merge-HasDistinctKeys m [] h = h
  merge-HasDistinctKeys m ((k, v) ∷ entries) h =
      merge-HasDistinctKeys (insert k v m) entries (insert-HasDistinctKeys k v m h)

  abbrev or_else : Option V → Option V → Option V
  or_else none d = d
  or_else (some v) d = some v

  last_entry-lookup :
      (k : String) (d : Option V) (m : Dict V)
      → HasDistinctKeys m
      → last_entry k d m ≡ or_else (lookup k m) d
  unfolding lookup
  last_entry-lookup k d [] h = refl
  last_entry-lookup k d ((j, v) ∷ m) h = elim (Bool-cases (j == k)) [
    | inl e ↦ rw e (
        last_entry-lookup k (some v) m h.1
        ∙ (let q : lookup k m ≡ none = rw ((eq_iff j k).0 e) at h.0 in rw q refl))
    | inr e ↦ rw e (last_entry-lookup k d m h.1)
  ]

  last_entry-or_else :
      (k : String) (d : Option V) (entries : List (String × V))
      → last_entry k d entries ≡ or_else (last_entry k none entries) d
  last_entry-or_else k d [] = refl
  last_entry-or_else k d ((j, v) ∷ entries) =
      ground (arith, last_entry-or_else k d entries, last_entry-or_else k (some v) entries)

  -- Spreading an object made from entries over another: the last entry for a key counts.
  pub lookup-merge-from_entries :
      (k : String) (m : Dict V) (entries : List (String × V))
      → lookup k (merge m (from_entries entries)) ≡ last_entry k (lookup k m) entries
  unfolding from_entries
  lookup-merge-from_entries k m entries =
      lookup-merge k (merge [] entries) m
      ∙ last_entry-lookup k (lookup k m) (merge [] entries) (merge-HasDistinctKeys [] entries tt)
      ∙ rw (lookup-merge k entries [])
          (unfold lookup in sym (last_entry-or_else k (lookup k m) entries))

module _ {ℓ} {V : Type ℓ} (key : V → String) where
  abbrev pub IsKeyedBy : Dict V → Type 0
  IsKeyedBy m = All (λ e. e.0 ≡ key e.1) m

  pub insert-IsKeyedBy : (v : V) (m : Dict V) → IsKeyedBy m → IsKeyedBy (insert (key v) v m)
  unfolding insert
  insert-IsKeyedBy v [] h = (refl, tt)
  insert-IsKeyedBy v ((j, w) ∷ m) h = elim (Bool-cases (j == key v)) [
    | inl e ↦ rw e ((eq_iff j (key v)).0 e, h.1)
    | inr e ↦ rw e (h.0, insert-IsKeyedBy v m h.1)
  ]

  pub lookup-key : (k : String) (m : Dict V) (v : V) → IsKeyedBy m → lookup k m ≡ some v → key v ≡ k
  unfolding lookup
  lookup-key k [] v h e = ground arith
  lookup-key k ((j, w) ∷ m) v h e = ground (arith, eq_iff j k, lookup-key k m v h.1)

  pub merge-IsKeyedBy :
      (m : Dict V) (entries : List (String × V))
      → IsKeyedBy m
      → IsKeyedBy entries
      → IsKeyedBy (merge m entries)
  unfolding merge
  merge-IsKeyedBy m [] h k = h
  merge-IsKeyedBy m ((j, v) ∷ entries) h k =
      merge-IsKeyedBy (insert j v m) entries (rw k.0 (insert-IsKeyedBy v m h)) k.1

  pub from_entries-IsKeyedBy : (vs : List V) → IsKeyedBy (from_entries (map (λ v. (key v, v)) vs))
  unfolding from_entries
  from_entries-IsKeyedBy vs = merge-IsKeyedBy [] _ tt (go vs)
    where
      go : (us : List V) → IsKeyedBy (map (λ v. (key v, v)) us)
      go [] = tt
      go (u ∷ us) = (refl, go us)
