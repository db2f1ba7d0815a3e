-- ===== src/LayoutEditor/Attached.antt =====
-- The ends of the routes in app/layouts/page.tsx stay at their stations.
pub mod Edits
pub mod Homes
pub mod Steps
pub mod Runs
use ev_factory_twin.Prelude.{
  ℕ, zero, suc, ◌+◌, ◌-◌, ◌≤◌, ◌≡◌, refl, sym, ap, ◌∙◌, subst, arith, String, Bool, true, false,
  ◌&&◌, not, Option, none, some, List, [], ◌∷◌, ◌++◌, map, find, head?, last?, last?-append, length,
  beq, All, ◌==◌, eq_iff, Bool-cases, Option-cases, inl, inr, if◌then◌else◌,
}
use ev_factory_twin.Prelude.Index.{map_from, map_at, length-map_from}
use ev_factory_twin.Schema.Layout.{WorldPoint, Station, LayoutRoute, LayoutVersionContent}
use ev_factory_twin.Layout.{place_of}
use ev_factory_twin.LayoutEditor.{LayoutWorkspace}
use ev_factory_twin.LayoutEditor.Stations.{
  place_station, move_end, drag_route, move_content, move_station,
}
use ev_factory_twin.LayoutEditor.Routes.{station_of}
use mathlib.Core.Option
use mathlib.Core.Path.{fun_ext}

-- The route has two points or more, and the first and the last are the places of its two stations.
abbrev pub IsAttached : LayoutVersionContent → LayoutRoute → Type 0
IsAttached c r =
    (2 ≤ length r.waypoints)
    × (head? r.waypoints ≡ Option.map place_of (station_of r.start_station_id c))
    × (last? r.waypoints ≡ Option.map place_of (station_of r.end_station_id c))

abbrev pub AreAttached : LayoutVersionContent → Type 0
AreAttached c = All (IsAttached c) c.routes

-- A moved station is found at its new place, and the others where they were.
station_of-move :
    (id : String) (p : WorldPoint) (other : String) (ts : List Station)
    → Option.map place_of (find (λ (t : Station). t.id == other) (map (place_station id p) ts))
      ≡ Option.map
          (λ q. if other == id then p else q)
          (Option.map place_of (find (λ (t : Station). t.id == other) ts))
station_of-move id p other [] = refl
station_of-move id p other (t ∷ ts) =
    ground
      (arith, eq_iff t.id other, eq_iff t.id id, eq_iff other id, station_of-move id p other ts)

last?-map_from :
    (f : ℕ → WorldPoint → WorldPoint) (i : ℕ) (ps : List WorldPoint)
    → last? (map_from i f ps) ≡ Option.map (f (i + length ps - 1)) (last? ps)
last?-map_from f i [] = refl
last?-map_from f i (p ∷ []) = ap (λ k. some (f k p)) (omega arith)
last?-map_from f i (p ∷ q ∷ ps) =
    last?-map_from f (i + 1) (q ∷ ps) ∙ ap (λ k. Option.map (f k) (last? (q ∷ ps))) (omega arith)

head?-drag :
    (starts ends : Bool) (p : WorldPoint) (ps : List WorldPoint)
    → 2 ≤ length ps
    → head? (map_from 0 (move_end starts ends (length ps) p) ps)
      ≡ Option.map (λ q. if starts then p else q) (head? ps)
head?-drag starts ends p [] h = absurd (omega arith)
head?-drag starts ends p (q ∷ ps) h = ground arith

last?-drag :
    (starts ends : Bool) (p : WorldPoint) (ps : List WorldPoint)
    → 2 ≤ length ps
    → last? (map_from 0 (move_end starts ends (length ps) p) ps)
      ≡ Option.map (λ q. if ends then p else q) (last? ps)
last?-drag starts ends p ps h =
    last?-map_from (move_end starts ends (length ps) p) 0 ps
    ∙ ap (λ g. Option.map g (last? ps)) (fun_ext (λ q. ground arith))

drag_route-IsAttached :
    (id : String) (p : WorldPoint) (c : LayoutVersionContent) (r : LayoutRoute)
    → IsAttached c r
    → IsAttached (move_content id p c) (drag_route id p r)
drag_route-IsAttached id p c r (long, first, last) = (
  rw (length-map_from) long,
  head?-drag (r.start_station_id == id) (r.end_station_id == id) p r.waypoints long
      ∙ ap (Option.map (λ q. if r.start_station_id == id then p else q)) first
      ∙ sym (station_of-move id p r.start_station_id c.stations),
  last?-drag (r.start_station_id == id) (r.end_station_id == id) p r.waypoints long
      ∙ ap (Option.map (λ q. if r.end_station_id == id then p else q)) last
      ∙ sym (station_of-move id p r.end_station_id c.stations),
)

All-drag :
    (id : String) (p : WorldPoint) (c : LayoutVersionContent) (rs : List LayoutRoute)
    → All (IsAttached c) rs
    → All (IsAttached (move_content id p c)) (map (drag_route id p) rs)
All-drag id p c [] h = tt
All-drag id p c (r ∷ rs) h = (drag_route-IsAttached id p c r h.0, All-drag id p c rs h.1)

-- A station that is moved, by the map or by its fields, takes the ends of all its routes with it: if every
-- route runs from the place of its start station to that of its end station, it still does.
pub move_station-AreAttached :
    (id : String) (p : WorldPoint) (s : LayoutWorkspace)
    → AreAttached s.draft
    → AreAttached (move_station id p s).draft
unfolding move_station
move_station-AreAttached id p s h = All-drag id p s.draft s.draft.routes h
