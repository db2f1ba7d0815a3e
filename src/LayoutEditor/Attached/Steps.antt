-- ===== src/LayoutEditor/Attached/Steps.antt =====
-- Which inputs of the layout editor of app/layouts/page.tsx keep the ends of the routes at their stations.
use ev_factory_twin.Prelude.{
  ℕ, ◌+◌, ◌-◌, ◌≤◌, ◌≡◌, refl, sym, ap, ◌∙◌, arith, String, true, not, Option, none, some, List, [],
  ◌∷◌, map, filter, head?, last?, length, beq, All, All-append, All-filter, ◌==◌, if◌then◌else◌,
  if-elim, if-false,
}
use ev_factory_twin.Prelude.Index.{map_from, map_at, length-map_from}
use ev_factory_twin.Schema.Fleet.{Number}
use ev_factory_twin.Schema.Layout.{
  WorldPoint, Station, LayoutRoute, RouteKind, LayoutVersionContent,
}
use ev_factory_twin.Layout.{place_of, same_type}
use ev_factory_twin.LayoutEditor.{LayoutWorkspace, Axis, set_axis}
use ev_factory_twin.LayoutEditor.Stations.{place_station, move_station, move_found}
use ev_factory_twin.LayoutEditor.Routes.{
  RouteEnd, start_end, finish_end, redirect, redirect_found, remove_route, station_of, add_between,
  add_route, new_route, new_route_id, start_type, end_type,
}
use ev_factory_twin.LayoutEditor.Attached.{
  IsAttached, AreAttached, move_station-AreAttached, last?-map_from,
}
use ev_factory_twin.LayoutEditor.Attached.Homes.{
  station_ids, IsHome, All-homes, All-find, All-choose_end,
}
use ev_factory_twin.LayoutEditor.Sound.{are_distinct}
use mathlib.Core.Option

-- The stations have different ids, and the routes run between them.
pub record IsAnchored (c : LayoutVersionContent) : Type 0 where
  pub distinct : are_distinct (station_ids c.stations) ≡ true
  pub attached : AreAttached c

station_ids-move :
    (id : String) (p : WorldPoint) (ts : List Station)
    → station_ids (map (place_station id p) ts) ≡ station_ids ts
station_ids-move id p [] = refl
station_ids-move id p (t ∷ ts) = ground (arith, station_ids-move id p ts)

pub move_station-IsAnchored :
    (id : String) (p : WorldPoint) (s : LayoutWorkspace)
    → IsAnchored s.draft
    → IsAnchored (move_station id p s).draft
unfolding move_station
move_station-IsAnchored id p s h = record {
  distinct = ap are_distinct (station_ids-move id p s.draft.stations) ∙ h.distinct;
  attached = move_station-AreAttached id p s h.attached;
}

pub move_found-IsAnchored :
    (t : Option Station) (id : String) (axis : Axis) (value : Number) (s : LayoutWorkspace)
    → IsAnchored s.draft
    → IsAnchored (move_found t id axis value s).draft
move_found-IsAnchored none id axis value s h = h
move_found-IsAnchored (some t) id axis value s h =
    move_station-IsAnchored id (set_axis axis value (place_of t)) s h

head?-place_at :
    (k : ℕ) (p : WorldPoint) (ps : List WorldPoint)
    → 2 ≤ length ps
    → head? (map_at k (λ _. p) ps) ≡ (if beq k 0 then some p else head? ps)
head?-place_at k p [] h = absurd (omega arith)
head?-place_at k p (q ∷ ps) h = ground arith

last?-place_first :
    (p : WorldPoint) (ps : List WorldPoint)
    → 2 ≤ length ps
    → last? (map_at 0 (λ _. p) ps) ≡ last? ps
last?-place_first p ps h =
    last?-map_from (λ i q. if beq i 0 then p else q) 0 ps
    ∙ elim (last? ps)
        as (λ (o : Option WorldPoint).
          Option.map (λ q. if beq (0 + length ps - 1) 0 then p else q) o ≡ o) [
            | none ↦ refl
            | some q ↦ ground arith
          ]

last?-is_some :
    (q : WorldPoint) (ps : List WorldPoint) → (x : WorldPoint) × (last? (q ∷ ps) ≡ some x)
last?-is_some q [] = (q, refl)
last?-is_some q (r ∷ ps) = last?-is_some r ps

last?-place_last :
    (p : WorldPoint) (ps : List WorldPoint)
    → 2 ≤ length ps
    → last? (map_at (length ps - 1) (λ _. p) ps) ≡ some p
last?-place_last p [] h = absurd (omega arith)
last?-place_last p (q ∷ ps) h =
    let (x, e) = last?-is_some q ps in
    last?-map_from (λ i r. if beq i (length (q ∷ ps) - 1) then p else r) 0 (q ∷ ps)
    ∙ ap (Option.map (λ r. if beq (0 + length (q ∷ ps) - 1) (length (q ∷ ps) - 1) then p else r)) e
    ∙ ground arith

redirect-IsAttached :
    (field : RouteEnd) (t : Station) (id : String) (c : LayoutVersionContent) (r : LayoutRoute)
    → station_of id c ≡ some t
    → IsAttached c r
    → IsAttached c (redirect field t id r)
redirect-IsAttached start_end t id c r found (long, first, last) = (
  rw length-map_from long,
  head?-place_at 0 (place_of t) r.waypoints long ∙ sym (ap (Option.map place_of) found),
  last?-place_first (place_of t) r.waypoints long ∙ last,
)
redirect-IsAttached finish_end t id c r found (long, first, last) = (
  rw length-map_from long,
  head?-place_at (length r.waypoints - 1) (place_of t) r.waypoints long
      ∙ if-false (some (place_of t)) (head? r.waypoints) (ground arith)
      ∙ first,
  last?-place_last (place_of t) r.waypoints long ∙ sym (ap (Option.map place_of) found),
)

All-map_at :
    (k i : ℕ) (f : LayoutRoute → LayoutRoute) (c : LayoutVersionContent) (rs : List LayoutRoute)
    → ((r : LayoutRoute) → IsAttached c r → IsAttached c (f r))
    → All (IsAttached c) rs
    → All (IsAttached c) (map_from i (λ j r. if beq j k then f r else r) rs)
All-map_at k i f c [] keeps h = tt
All-map_at k i f c (r ∷ rs) keeps h = (
  if-elim (IsAttached c) (beq i k) (λ _. keeps r h.0) (λ _. h.0),
  All-map_at k (i + 1) f c rs keeps h.1,
)

pub redirect_found-IsAnchored :
    (t : Option Station) (k : ℕ) (field : RouteEnd) (id : String) (s : LayoutWorkspace)
    → station_of id s.draft ≡ t
    → IsAnchored s.draft
    → IsAnchored (redirect_found t k field id s).draft
redirect_found-IsAnchored none k field id s found h = h
redirect_found-IsAnchored (some t) k field id s found h = record {
  distinct = h.distinct;
  attached =
      All-map_at k 0 (redirect field t id) s.draft s.draft.routes
        (λ r. redirect-IsAttached field t id s.draft r found) h.attached;
}

pub remove_route-IsAnchored :
    (route : Option LayoutRoute) (s : LayoutWorkspace)
    → IsAnchored s.draft
    → IsAnchored (remove_route route s).draft
remove_route-IsAnchored none s h = h
remove_route-IsAnchored (some route) s h =
    let keep = λ (r : LayoutRoute). not (r.id == route.id) in
    let kept : IsAnchored (record s.draft { routes = filter keep s.draft.routes }) = record {
      distinct = h.distinct;
      attached = All-filter (IsAttached s.draft) keep s.draft.routes h.attached;
    } in
    ground (arith, kept)

add_between-IsAnchored :
    (number_text : ℕ → String) (kind : RouteKind) (start end : Option Station) (s : LayoutWorkspace)
    → ((t : Station) → start ≡ some t → IsHome s.draft.stations t)
    → ((t : Station) → end ≡ some t → IsHome s.draft.stations t)
    → IsAnchored s.draft
    → IsAnchored (add_between number_text kind start end s).draft
add_between-IsAnchored number_text kind none end s here there h = h
add_between-IsAnchored number_text kind (some start) none s here there h = h
add_between-IsAnchored number_text kind (some start) (some end) s here there h = record {
  distinct = h.distinct;
  attached =
      All-append (IsAttached s.draft) s.draft.routes
        (new_route (new_route_id number_text kind s.draft) kind start end ∷ []) h.attached
        (
          (
            omega arith,
            sym (ap (Option.map place_of) (here start refl)),
            sym (ap (Option.map place_of) (there end refl)),
          ),
          tt,
        );
}

pub add_route-IsAnchored :
    (number_text : ℕ → String) (kind : RouteKind) (s : LayoutWorkspace)
    → IsAnchored s.draft
    → IsAnchored (add_route number_text kind s).draft
unfolding add_route
add_route-IsAnchored number_text kind s h =
    let homes = All-homes s.draft.stations h.distinct in
    let is_end = λ (t : Station). same_type t.type (end_type kind) in
    let is_start = λ (t : Station). same_type t.type (start_type kind) in
    add_between-IsAnchored number_text kind _ _ s
      (λ t. All-find (IsHome s.draft.stations) is_start s.draft.stations t homes)
      (λ t.
        All-choose_end (IsHome s.draft.stations) kind s.draft (filter is_end s.draft.stations) t
          (All-filter (IsHome s.draft.stations) is_end s.draft.stations homes))
      h
