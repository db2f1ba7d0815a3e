-- ===== src/LayoutEditor/Attached/Homes.antt =====
-- Stations with different ids are found by them.
use ev_factory_twin.Prelude.{
  ◌≡◌, refl, arith, String, Bool, true, false, not, Option, none, some, List, [], ◌∷◌, map, any,
  find, head?, subst, All, ◌==◌, eq_iff, eq_refl, Bool-cases, inl, inr,
}
use ev_factory_twin.Schema.Layout.{Station, RouteKind, LayoutVersionContent}
use ev_factory_twin.LayoutEditor.Routes.{choose_end, or_first, end_used}
use ev_factory_twin.LayoutEditor.Sound.{are_distinct}

abbrev pub station_ids : List Station → List String
station_ids ts = map (λ (t : Station). t.id) ts

abbrev pub IsHome : List Station → Station → Type 0
IsHome ts t = find (λ (u : Station). u.id == t.id) ts ≡ some t

differ :
    (id : String) (ts : List Station)
    → any (λ y. y == id) (station_ids ts) ≡ false
    → All (λ (t : Station). (id == t.id) ≡ false) ts
differ id [] h = tt
differ id (t ∷ ts) h = (ground (arith, eq_iff id t.id, eq_iff t.id id), differ id ts (ground arith))

step-IsHome :
    (x : Station) (ts us : List Station)
    → All (λ (t : Station). (x.id == t.id) ≡ false) us
    → All (IsHome ts) us
    → All (IsHome (x ∷ ts)) us
step-IsHome x ts [] d h = tt
step-IsHome x ts (u ∷ us) d h = (rw d.0 h.0, step-IsHome x ts us d.1 h.1)

pub All-homes : (ts : List Station) → are_distinct (station_ids ts) ≡ true → All (IsHome ts) ts
unfolding are_distinct
All-homes [] h = tt
All-homes (x ∷ ts) h = (
  rw (eq_refl x.id) refl,
  step-IsHome x ts ts (differ x.id ts (ground arith)) (All-homes ts (ground arith)),
)

module _ (P : Station → Type 0) where
  pub All-find :
      (p : Station → Bool) (ts : List Station) (t : Station) → All P ts → find p ts ≡ some t → P t
  All-find p [] t h found = absurd (ground arith)
  All-find p (x ∷ ts) t h found = elim (Bool-cases (p x)) [
    | inl hit ↦ subst P (ground arith) h.0
    | inr miss ↦ All-find p ts t h.1 (ground arith)
  ]

  All-head? : (ts : List Station) (t : Station) → All P ts → head? ts ≡ some t → P t
  All-head? [] t h first = absurd (ground arith)
  All-head? (x ∷ ts) t h first = subst P (ground arith) h.0

  All-or_first :
      (found : Option Station) (ts : List Station) (t : Station)
      → ((u : Station) → found ≡ some u → P u)
      → All P ts
      → or_first found ts ≡ some t
      → P t
  All-or_first none ts t here h first = All-head? ts t h first
  All-or_first (some u) ts t here h first = here t first

  pub All-choose_end :
      (kind : RouteKind) (c : LayoutVersionContent) (ts : List Station) (t : Station)
      → All P ts
      → choose_end kind c ts ≡ some t
      → P t
  All-choose_end kind c ts t h =
      All-or_first (find (λ u. not (end_used kind c u)) ts) ts t
        (λ u. All-find (λ u. not (end_used kind c u)) ts u h) h
