-- ===== src/LayoutDiff/Reported.antt =====
-- What an empty report of lib/layout-diff.ts means.
use ev_factory_twin.Prelude.{
  ℕ, ◌+◌, ◌≡◌, refl, arith, String, Bool, true, false, not, ◌||◌, Option, none, some, List, [], ◌∷◌,
  ◌==◌, eq_iff, beq_iff, if◌then◌else◌, any, All, All-map_of,
}
use ev_factory_twin.Prelude.Int.{ℤ, pos, -ℤ_parts, beq_ℤ, ◌-ℤ◌, eq_of_parts, pos_part, neg_part}
use ev_factory_twin.Schema.Fleet.{Number}
use ev_factory_twin.Schema.Layout.{WorldPoint, Station, LayoutRoute, LayoutVersionContent}
use mathlib.Core.List.{◌++◌}
use ev_factory_twin.LayoutDiff.{
  LayoutChange, change, same_path, get_by, collect, removed, diff_stations, station_change,
  diff_routes, route_change, diff_footprint, diff_layout_content,
}

both_nothing : (a b : List LayoutChange) → a ++ b ≡ [] → (a ≡ []) × (b ≡ [])
both_nothing [] b h = (refl, h)
both_nothing (c ∷ a) b h = cc

each_nothing :
    {A : Type 0} (f : A → List LayoutChange) (xs : List A)
    → collect f xs ≡ []
    → All (λ x. f x ≡ []) xs
each_nothing f [] h = tt
each_nothing f (x ∷ xs) h =
    let (this, rest) = both_nothing (f x) (collect f xs) h in (this, each_nothing f xs rest)

-- Every member of the one list has a member of the other with its id.
abbrev pub AreKept : {A : Type 0} → (A → String) → List A → List A → Type 0
AreKept id current candidate = All (λ x. any (λ y. id y == id x) candidate ≡ true) current

none_removed :
    {A : Type 0} (label : String) (id : A → String) (current candidate : List A)
    → removed label id current candidate ≡ []
    → AreKept id current candidate
none_removed label id current candidate h =
    All-map_of current (λ x nothing. kept_of (any (λ y. id y == id x) candidate) (id x) nothing)
      (each_nothing _ current h)
  where
    kept_of :
        (b : Bool) (detail : String) → (if b then [] else change label detail ∷ []) ≡ [] → b ≡ true
    kept_of true detail nothing = refl
    kept_of false detail nothing = cc

beq_ℤ→eq : (a b : ℤ) → beq_ℤ a b ≡ true → a ≡ b
beq_ℤ→eq a b h = eq_of_parts a b ((beq_iff (pos_part a + neg_part b) (pos_part b + neg_part a)).0 h)

not_either :
    (a b : Bool) (c : LayoutChange)
    → (if not a || not b then c ∷ [] else []) ≡ []
    → (a ≡ true) × (b ≡ true)
not_either true true c h = (refl, refl)
not_either true false c h = cc
not_either false b c h = cc

-- The station that had this id before stood at this place.
abbrev pub IsUnmoved : List Station → Station → Type 0
IsUnmoved current s =
    (t : Station) × (get_by (λ (u : Station). u.id) current s.id ≡ some t)
    × (t.x ≡ s.x)
    × (t.y ≡ s.y)

-- The route that had this id before had these ends and waypoints.
abbrev pub IsUnrouted : List LayoutRoute → LayoutRoute → Type 0
IsUnrouted current r =
    (q : LayoutRoute) × (get_by (λ (u : LayoutRoute). u.id) current r.id ≡ some q)
    × (q.start_station_id ≡ r.start_station_id)
    × (q.end_station_id ≡ r.end_station_id)
    × (q.waypoints ≡ r.waypoints)

same_path→eq : (ps qs : List WorldPoint) → same_path ps qs ≡ true → ps ≡ qs
unfolding same_path
same_path→eq [] [] h = refl
same_path→eq [] (q ∷ qs) h = cc
same_path→eq (p ∷ ps) [] h = cc
same_path→eq (p ∷ ps) (q ∷ qs) h =
    ground (arith, beq_ℤ→eq p.x q.x, beq_ℤ→eq p.y q.y, same_path→eq ps qs)

eq_of_difference : (a b : ℤ) → a -ℤ b ≡ pos 0 → b ≡ a
eq_of_difference a b h =
    let k = -ℤ_parts a b in let j = rw h at k in eq_of_parts b a (omega (arith, j))

-- `Math.hypot` is zero at the origin only.
module _ (hypot : Number → Number → ℕ) (number_text : Number → String)
    (hypot_zero : (x y : Number) → hypot x y ≡ 0 → (x ≡ pos 0) × (y ≡ pos 0)) where
  unmoved_of :
      (previous : Option Station) (s : Station)
      → station_change hypot number_text previous s ≡ []
      → (t : Station) × (previous ≡ some t) × (t.x ≡ s.x) × (t.y ≡ s.y)
  unmoved_of none s h = cc
  unmoved_of (some t) s h =
      let still = hypot_zero (s.x -ℤ t.x) (s.y -ℤ t.y) (ground arith) in
      (t, refl, eq_of_difference s.x t.x still.0, eq_of_difference s.y t.y still.1)

  unrouted_of :
      (previous : Option LayoutRoute) (r : LayoutRoute)
      → route_change hypot number_text previous r ≡ []
      → (q : LayoutRoute) × (previous ≡ some q)
        × (q.start_station_id ≡ r.start_station_id)
        × (q.end_station_id ≡ r.end_station_id)
        × (q.waypoints ≡ r.waypoints)
  unrouted_of none r h = cc
  unrouted_of (some q) r h = (
    q,
    refl,
    ground (
      arith,
      eq_iff q.start_station_id r.start_station_id,
      eq_iff q.end_station_id r.end_station_id,
    ),
    ground (
      arith,
      eq_iff q.start_station_id r.start_station_id,
      eq_iff q.end_station_id r.end_station_id,
    ),
    same_path→eq q.waypoints r.waypoints (
        ground (
          arith,
          eq_iff q.start_station_id r.start_station_id,
          eq_iff q.end_station_id r.end_station_id,
        )),
  )

  -- If nothing is reported, the footprint is the same, every station of the candidate stood at its place
  -- before and every route had its ends and waypoints before, and no station and no route is gone, if
  -- `Math.hypot` is zero at the origin only.
  pub nothing_reported :
      (current candidate : LayoutVersionContent)
      → diff_layout_content hypot number_text current candidate ≡ []
      → ((current.width ≡ candidate.width) × (current.height ≡ candidate.height))
        × (All (IsUnmoved current.stations) candidate.stations
            × AreKept (λ s. s.id) current.stations candidate.stations)
        × (All (IsUnrouted current.routes) candidate.routes
            × AreKept (λ r. r.id) current.routes candidate.routes)
  unfolding diff_layout_content diff_footprint diff_stations diff_routes
  nothing_reported current candidate h =
      let (footprint, h1) = both_nothing (diff_footprint hypot number_text current candidate) _ h in
      let (stations, h2) =
        both_nothing (diff_stations hypot number_text current.stations candidate.stations) _ h1 in
      let (routes, h3) =
        both_nothing (diff_routes hypot number_text current.routes candidate.routes) _ h2 in
      let (moved, gone) = both_nothing _ _ stations in
      let (rerouted, lost) = both_nothing _ _ routes in
      (
        (
          beq_ℤ→eq _ _
              (not_either (beq_ℤ current.width candidate.width)
                (beq_ℤ current.height candidate.height) _ footprint).0,
          beq_ℤ→eq _ _
              (not_either (beq_ℤ current.width candidate.width)
                (beq_ℤ current.height candidate.height) _ footprint).1,
        ),
        (
          All-map_of candidate.stations
              (λ s. unmoved_of (get_by (λ (u : Station). u.id) current.stations s.id) s)
              (each_nothing _ candidate.stations moved),
          none_removed _ (λ (s : Station). s.id) current.stations candidate.stations gone,
        ),
        (
          All-map_of candidate.routes
              (λ r. unrouted_of (get_by (λ (u : LayoutRoute). u.id) current.routes r.id) r)
              (each_nothing _ candidate.routes rerouted),
          none_removed _ (λ (r : LayoutRoute). r.id) current.routes candidate.routes lost,
        ),
      )
