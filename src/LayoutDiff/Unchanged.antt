-- ===== src/LayoutDiff/Unchanged.antt =====
-- When lib/layout-diff.ts reports nothing.
use ev_factory_twin.Prelude.{
  ℕ, ◌≡◌, refl, ap, sym, ◌∙◌, arith, String, Bool, true, false, not, ◌||◌, Option, none, some, List,
  [], ◌∷◌, map, ◌==◌, eq_refl, ltb, if◌then◌else◌, any, All, All-map_of, if-true, if-false,
}
use ev_factory_twin.Prelude.Dict.{lookup, from_entries, last_entry, lookup-merge}
use ev_factory_twin.Prelude.Int.{ℤ, pos, beq_ℤ, ◌-ℤ◌}
use ev_factory_twin.Schema.Fleet.{Number}
use ev_factory_twin.Schema.Layout.{
  WorldPoint, Station, StationType, LayoutRoute, RouteKind, LayoutRuntimeConfig,
  LayoutVersionContent,
}
use mathlib.Core.List.{◌++◌}
use Prim.Native.String.{◌++◌ as ◌+++◌}
use ev_factory_twin.LayoutDiff.{
  LayoutChange, Zone, zone_of_polygon, zone_of_congestion, same_path, same_delay, get_by, collect,
  removed, diff_zones, zone_change, diff_stations, station_change, diff_routes, route_change,
  diff_config, diff_footprint, diff_layout_content,
}

module _ {A : Type 0} (id : A → String) where
  -- No two members have one id.
  abbrev pub HasDistinctIds : List A → Type 0
  HasDistinctIds [] = Unit
  HasDistinctIds (x ∷ xs) = All (λ y. (id y == id x) ≡ false) xs × HasDistinctIds xs

  last_entry_absent :
      (k : String) (d : Option A) (xs : List A)
      → All (λ y. (id y == k) ≡ false) xs
      → last_entry k d (map (λ x. (id x, x)) xs) ≡ d
  last_entry_absent k d [] h = refl
  last_entry_absent k d (x ∷ xs) h =
      ap (λ e. last_entry k e (map (λ x. (id x, x)) xs)) (if-false _ _ h.0)
      ∙ last_entry_absent k d xs h.1

  last_entry_own :
      (d : String → Option A) (xs : List A)
      → HasDistinctIds xs
      → All (λ x. (e : Option A) → last_entry (id x) e (map (λ y. (id y, y)) xs) ≡ some x) xs
  last_entry_own d [] h = tt
  last_entry_own d (x ∷ xs) (first, rest) = (
    (λ e.
        ap (λ e'. last_entry (id x) e' (map (λ y. (id y, y)) xs)) (if-true _ _ (eq_refl (id x)))
        ∙ last_entry_absent (id x) (some x) xs first),
    All-map_of xs (λ y own e. own (if id x == id y then some x else e)) (last_entry_own d xs rest),
  )

  -- With distinct ids, every member is found by its own.
  get_by_own : (xs : List A) → HasDistinctIds xs → All (λ x. get_by id xs (id x) ≡ some x) xs
  unfolding from_entries lookup
  get_by_own xs h =
      All-map_of xs (λ x own. lookup-merge (id x) (map (λ y. (id y, y)) xs) [] ∙ own none)
        (last_entry_own (λ _. none) xs h)

pub collect_nothing :
    {A : Type 0} (f : A → List LayoutChange) (xs : List A)
    → All (λ x. f x ≡ []) xs
    → collect f xs ≡ []
collect_nothing f [] h = refl
collect_nothing f (x ∷ xs) h = ap (λ c. c ++ collect f xs) h.0 ∙ collect_nothing f xs h.1

All-map :
    {A B : Type 0} (P : B → Type 0) (g : A → B) (xs : List A)
    → All (λ x. P (g x)) xs
    → All P (map g xs)
All-map P g [] h = tt
All-map P g (x ∷ xs) h = (h.0, All-map P g xs h.1)

append_nothing : (a b : List LayoutChange) → a ≡ [] → b ≡ [] → a ++ b ≡ []
append_nothing a b h k = ap (λ t. t ++ b) h ∙ k

map_same : {A : Type 0} (xs : List A) → map (λ x. x) xs ≡ xs
map_same [] = refl
map_same (x ∷ xs) = ap (◌∷◌ x) (map_same xs)

module _ {A : Type 0} (id : A → String) (g : A → A) (same : (x : A) → id (g x) ≡ id x) where
  All-kept : (xs : List A) → All (λ x. any (λ y. id y == id x) (map g xs) ≡ true) xs
  All-kept [] = tt
  All-kept (x ∷ xs) = (
    ap (λ b. b || any (λ y. id y == id x) (map g xs))
        (ap (λ i. i == id x) (same x) ∙ eq_refl (id x)),
    All-map_of xs (λ y kept. ap (λ b. id (g x) == id y || b) kept ∙ or_true (id (g x) == id y))
        (All-kept xs),
  )
    where
      or_true : (b : Bool) → (b || true) ≡ true
      or_true b = ground arith

  removed_nothing : (label : String) (xs : List A) → removed label id xs (map g xs) ≡ []
  removed_nothing label xs =
      collect_nothing _ xs (All-map_of xs (λ x kept. if-true _ _ kept) (All-kept xs))

minus_self : (a : ℤ) → a -ℤ a ≡ pos 0
unfolding ◌-ℤ◌
minus_self a = ground arith

beq_ℤ_refl : (a : ℤ) → beq_ℤ a a ≡ true
beq_ℤ_refl a = ground arith

same_path_refl : (ps : List WorldPoint) → same_path ps ps ≡ true
unfolding same_path
same_path_refl [] = refl
same_path_refl (p ∷ ps) = ground (arith, beq_ℤ_refl p.x, beq_ℤ_refl p.y, same_path_refl ps)

same_delay_refl : (d : Option Number) → same_delay d d ≡ true
same_delay_refl none = refl
same_delay_refl (some d) = beq_ℤ_refl d

-- The content with other types of its stations and other kinds of its routes.
abbrev pub retype_station : (Station → StationType) → Station → Station
retype_station f s = record s { type = f s }

abbrev pub retype_route : (LayoutRoute → RouteKind) → LayoutRoute → LayoutRoute
retype_route f r = record r { kind = f r }

abbrev pub retype :
    (Station → StationType)
    → (LayoutRoute → RouteKind)
    → LayoutVersionContent
    → LayoutVersionContent
retype f g c = record c {
  stations = map (retype_station f) c.stations;
  routes = map (retype_route g) c.routes;
}

-- The identifiers of each kind are distinct.
abbrev pub IsIdentified : LayoutVersionContent → Type 0
IsIdentified c =
    HasDistinctIds (λ (s : Station). s.id) c.stations
    × HasDistinctIds (λ (r : LayoutRoute). r.id) c.routes
    × HasDistinctIds (λ (z : Zone). z.id) (map zone_of_polygon c.no_go_zones)
    × HasDistinctIds (λ (z : Zone). z.id) (map zone_of_congestion c.congestion_zones)

module _ (hypot : Number → Number → ℕ) (number_text : Number → String) where
  unmoved :
      (s : Station) → hypot (pos 0) (pos 0) ≡ 0 → ltb 0 (hypot (s.x -ℤ s.x) (s.y -ℤ s.y)) ≡ false
  unmoved s zero =
      ap (λ x. ltb 0 (hypot x (s.y -ℤ s.y))) (minus_self s.x)
      ∙ ap (λ y. ltb 0 (hypot (pos 0) y)) (minus_self s.y)
      ∙ ap (ltb 0) zero

  route_same :
      (f : LayoutRoute → RouteKind) (r : LayoutRoute)
      → route_change hypot number_text (some r) (retype_route f r) ≡ []
  route_same f r =
      if-false
        {b = not (r.start_station_id == r.start_station_id)
          || not (r.end_station_id == r.end_station_id)}
        _ _ (ground (arith, eq_refl r.start_station_id, eq_refl r.end_station_id))
      ∙ if-true _ _ (same_path_refl r.waypoints)

  zone_same : (kind : String) (z : Zone) → zone_change hypot number_text kind (some z) z ≡ []
  zone_same kind z =
      append_nothing _ _ (if-true _ _ (same_path_refl z.points))
        (if-true _ _ (same_delay_refl z.delay_multiplier))

  stations_nothing :
      (f : Station → StationType) (ss : List Station)
      → hypot (pos 0) (pos 0) ≡ 0
      → HasDistinctIds (λ (s : Station). s.id) ss
      → diff_stations hypot number_text ss (map (retype_station f) ss) ≡ []
  unfolding diff_stations
  stations_nothing f ss zero distinct =
      append_nothing _ _
        (collect_nothing _ (map (retype_station f) ss) (
          All-map _ (retype_station f) ss (
            All-map_of ss
              (λ s own.
                ap (λ o. station_change hypot number_text o (retype_station f s)) own
                ∙ if-false {b = ltb 0 (hypot (s.x -ℤ s.x) (s.y -ℤ s.y))} _ _ (unmoved s zero))
              (get_by_own (λ (s : Station). s.id) ss distinct))))
        (removed_nothing (λ (s : Station). s.id) (retype_station f) (λ _. refl) "Station removed"
          ss)

  routes_nothing :
      (f : LayoutRoute → RouteKind) (rs : List LayoutRoute)
      → HasDistinctIds (λ (r : LayoutRoute). r.id) rs
      → diff_routes hypot number_text rs (map (retype_route f) rs) ≡ []
  unfolding diff_routes
  routes_nothing f rs distinct =
      append_nothing _ _
        (collect_nothing _ (map (retype_route f) rs) (
          All-map _ (retype_route f) rs (
            All-map_of rs
              (λ r own.
                ap (λ o. route_change hypot number_text o (retype_route f r)) own ∙ route_same f r)
              (get_by_own (λ (r : LayoutRoute). r.id) rs distinct))))
        (removed_nothing (λ (r : LayoutRoute). r.id) (retype_route f) (λ _. refl) "Route removed"
          rs)

  zones_nothing :
      (kind : String) (zs : List Zone)
      → HasDistinctIds (λ (z : Zone). z.id) zs
      → diff_zones hypot number_text kind zs zs ≡ []
  unfolding diff_zones
  zones_nothing kind zs distinct =
      append_nothing _ _
        (collect_nothing _ zs (
          All-map_of zs
            (λ z own. ap (λ o. zone_change hypot number_text kind o z) own ∙ zone_same kind z)
            (get_by_own (λ (z : Zone). z.id) zs distinct)))
        (ap (λ ys. removed (kind +++ " removed") (λ (z : Zone). z.id) zs ys) (sym (map_same zs))
          ∙ removed_nothing (λ (z : Zone). z.id) (λ z. z) (λ _. refl) (kind +++ " removed") zs)

  config_nothing : (c : LayoutRuntimeConfig) → diff_config hypot number_text c c ≡ []
  unfolding diff_config
  config_nothing c = append_nothing _ _ (if-true _ _ (beq_ℤ_refl c.robot_count)) (
      append_nothing _ _ (if-true _ _ (beq_ℤ_refl c.demand_interval_seconds)) (
        append_nothing _ _ (if-true _ _ (beq_ℤ_refl c.robot_speed_mps))
          (if-true _ _ (beq_ℤ_refl c.charger_count))))

  -- A revision that changes the types of stations and the kinds of routes only, whichever, is
  -- reported as no change at all, if the identifiers are distinct and the distance of a point to
  -- itself is 0.
  pub retyping_unreported :
      (f : Station → StationType) (g : LayoutRoute → RouteKind) (c : LayoutVersionContent)
      → hypot (pos 0) (pos 0) ≡ 0
      → IsIdentified c
      → diff_layout_content hypot number_text c (retype f g c) ≡ []
  unfolding diff_layout_content diff_footprint
  retyping_unreported f g c zero (ss, rs, zs, ws) =
      append_nothing _ _
        (if-false {b = not (beq_ℤ c.width c.width) || not (beq_ℤ c.height c.height)} _ _
          (ground (arith, beq_ℤ_refl c.width, beq_ℤ_refl c.height)))
        (append_nothing _ _ (stations_nothing f c.stations zero ss) (
          append_nothing _ _ (routes_nothing g c.routes rs) (
            append_nothing _ _ (zones_nothing "No-go zone" (map zone_of_polygon c.no_go_zones) zs) (
              append_nothing _ _
                (zones_nothing "Congestion zone" (map zone_of_congestion c.congestion_zones) ws)
                (config_nothing c.config)))))
