-- ===== src/LayoutEditor/Crash.antt =====
-- A draft that the schema of the content accepts and that of the map refuses, in app/layouts/page.tsx.
use ev_factory_twin.Prelude.{
  ℕ, ◌≡◌, refl, ap, ◌∙◌, arith, String, Bool, true, false, ◌||◌, Option, none, some, if◌then◌else◌,
  List, [], ◌∷◌, ◌++◌, map, any, any-append, every, filter, find, length, ◌==◌, if-true,
}
use ev_factory_twin.Prelude.Int.{ltb_ℤ}
use ev_factory_twin.Prelude.Index.{length-map_from}
use ev_factory_twin.Prelude.Text.{trim, is_empty}
use ev_factory_twin.Schema.Fleet.{Number}
use ev_factory_twin.Schema.Layout.{
  WorldPoint, Station, LayoutRoute, LayoutVersionContent, FactoryLayout,
}
use ev_factory_twin.Schema.Content.{is_valid_content, is_valid_station, is_valid_route}
use ev_factory_twin.Schema.Factory.{trim_station, trim_layout, has_valid_fields}
use ev_factory_twin.Layout.{
  place_of, layout_points, is_outside, accept, parse_layout, project_layout_version, waypoints_of,
  corners_of,
}
use ev_factory_twin.LayoutEditor.{
  LayoutWorkspace, Axis, x_axis, y_axis, throws, shown, preview, set_axis, content_version,
  number_value,
}
use ev_factory_twin.LayoutEditor.Inputs.{types_station, types_name, step}
use ev_factory_twin.LayoutEditor.Stations.{
  place_station, drag_route, move_content, move_station, move_found, update_station,
}

length-map_same {ℓ κ} :
    {A : Type ℓ} {B : Type κ} (f : A → B) (xs : List A) → length (map f xs) ≡ length xs
length-map_same f [] = refl
length-map_same f (x ∷ xs) = omega (arith, length-map_same f xs)

every-map_same :
    {A : Type 0} (p : A → Bool) (f : A → A)
    → ((x : A) → p (f x) ≡ p x)
    → (xs : List A) → every p (map f xs) ≡ every p xs
every-map_same p f same [] = refl
every-map_same p f same (x ∷ xs) = cc (same x, every-map_same p f same xs)

drag_route-valid :
    (id : String) (p : WorldPoint) (r : LayoutRoute)
    → is_valid_route (drag_route id p r) ≡ is_valid_route r
unfolding is_valid_route
drag_route-valid id p r = rw length-map_from refl

place_station-valid :
    (id : String) (p : WorldPoint) (t : Station)
    → is_valid_station (place_station id p t) ≡ is_valid_station t
unfolding is_valid_station
place_station-valid id p t = ground arith

-- Where the stations stand does not matter to the schema.
is_valid_content-move :
    (id : String) (p : WorldPoint) (c : LayoutVersionContent)
    → is_valid_content (move_content id p c) ≡ is_valid_content c
unfolding is_valid_content
is_valid_content-move id p c =
    rw
      (
        length-map_same (place_station id p) c.stations,
        length-map_same (drag_route id p) c.routes,
        every-map_same is_valid_station (place_station id p) (place_station-valid id p) c.stations,
        every-map_same is_valid_route (drag_route id p) (drag_route-valid id p) c.routes,
      )
      refl

-- A point outside is an issue, wherever it is among the points.
filter-outside :
    (layout : FactoryLayout) (ps : List WorldPoint)
    → any (is_outside layout) ps ≡ true
    → accept (filter (is_outside layout) ps) layout ≡ none
filter-outside layout [] h = cc
filter-outside layout (p ∷ ps) h = ground (arith, filter-outside layout ps)

-- A moved station is among the points, also with its id trimmed.
any-placed :
    (q : WorldPoint → Bool) (id : String) (p : WorldPoint) (ts : List Station) (t : Station)
    → find (λ (u : Station). u.id == id) ts ≡ some t
    → q p ≡ true
    → any q (map place_of (map trim_station (map (place_station id p) ts))) ≡ true
any-placed q id p [] t found out = cc
any-placed q id p (u ∷ ts) t found out = ground (arith, any-placed q id p ts t)

refused :
    (fields : Bool) (o : Option FactoryLayout) → o ≡ none → (if fields then o else none) ≡ none
refused true o e = e
refused false o e = refl

parse-refused :
    (id : String) (p : WorldPoint) (ts : List Station) (t : Station) (layout : FactoryLayout)
    → find (λ (u : Station). u.id == id) ts ≡ some t
    → (ltb_ℤ layout.width p.x || ltb_ℤ layout.height p.y) ≡ true
    → layout.stations ≡ map (place_station id p) ts
    → parse_layout layout ≡ none
unfolding parse_layout
parse-refused id p ts t layout found out placed =
    let trimmed = trim_layout layout in
    let outside : is_outside trimmed p ≡ true = ground arith in
    let rest = waypoints_of trimmed.routes ++ corners_of trimmed.no_go_zones in
    let found_outside : any (is_outside trimmed) (map place_of trimmed.stations) ≡ true =
      rw placed (any-placed (is_outside trimmed) id p ts t found outside) in
    refused (has_valid_fields trimmed) _ (
      filter-outside trimmed (layout_points trimmed) (
        any-append (is_outside trimmed) (map place_of trimmed.stations) rest
        ∙ ap (λ b. b || any (is_outside trimmed) rest) found_outside))

project-refused :
    (id : String) (p : WorldPoint) (c : LayoutVersionContent) (t : Station)
    (layout_id name : String) (version : ℕ)
    → find (λ (u : Station). u.id == id) c.stations ≡ some t
    → (ltb_ℤ c.width p.x || ltb_ℤ c.height p.y) ≡ true
    → project_layout_version (content_version (move_content id p c) layout_id name version) ≡ none
unfolding project_layout_version
project-refused id p c t layout_id name version found out =
    parse-refused id p c.stations t _ found out refl

abbrev pub limit_of : Axis → LayoutVersionContent → Number
limit_of x_axis c = c.width
limit_of y_axis c = c.height

moved_throws :
    (id : String) (p : WorldPoint) (s : LayoutWorkspace) (t : Station)
    → is_valid_content s.draft ≡ true
    → find (λ (u : Station). u.id == id) s.draft.stations ≡ some t
    → (ltb_ℤ s.draft.width p.x || ltb_ℤ s.draft.height p.y) ≡ true
    → preview (move_station id p s) ≡ throws
unfolding preview move_station
moved_throws id p s t valid found out =
    if-true _ _ (is_valid_content-move id p s.draft ∙ valid)
    ∙ ap shown (project-refused id p s.draft t _ _ _ found out)

moved_station_throws :
    (id : String) (axis : Axis) (value : Number) (s : LayoutWorkspace) (t : Station)
    → is_valid_content s.draft ≡ true
    → find (λ (u : Station). u.id == id) s.draft.stations ≡ some t
    → ltb_ℤ (limit_of axis s.draft) value ≡ true
    → preview (update_station id axis value s) ≡ throws
unfolding update_station
moved_station_throws id x_axis value s t valid found out =
    ap (λ u. preview (move_found u id x_axis value s)) found
    ∙ moved_throws id (set_axis x_axis value (place_of t)) s t valid found (ground arith)
moved_station_throws id y_axis value s t valid found out =
    ap (λ u. preview (move_found u id y_axis value s)) found
    ∙ moved_throws id (set_axis y_axis value (place_of t)) s t valid found (ground arith)

-- The rendering of the page throws as soon as the user types a coordinate of a station that, brought to
-- the grid of half a metre, is greater than the extent of the factory on its axis, if the draft was valid
-- before: the schema that the page asks accepts the new draft, and that of the preview refuses it.
pub preview_throws :
    (number_text : ℕ → String) (schema_message : LayoutVersionContent → String) (id : String)
    (axis : Axis) (typed : Number) (s : LayoutWorkspace) (t : Station)
    → is_valid_content s.draft ≡ true
    → find (λ (u : Station). u.id == id) s.draft.stations ≡ some t
    → ltb_ℤ (limit_of axis s.draft) (number_value typed) ≡ true
    → preview (step number_text schema_message (types_station id axis typed) s) ≡ throws
unfolding step
preview_throws number_text schema_message id axis typed s t valid found out =
    moved_station_throws id axis (number_value typed) s t valid found out

blank_is_refused :
    (layout : FactoryLayout) → is_empty (trim layout.name) ≡ true → parse_layout layout ≡ none
unfolding parse_layout has_valid_fields
blank_is_refused layout blank = ground arith

-- The rendering of the page also throws as soon as the name in its field is blank, while the draft is
-- valid: the preview's schema refuses such a name.
blank_name_throws :
    (number_text : ℕ → String) (schema_message : LayoutVersionContent → String) (text : String)
    (s : LayoutWorkspace)
    → is_valid_content s.draft ≡ true
    → is_empty (trim text) ≡ true
    → preview (step number_text schema_message (types_name text) s) ≡ throws
unfolding step preview project_layout_version
blank_name_throws number_text schema_message text s valid blank =
    if-true _ _ valid ∙ ap shown (blank_is_refused _ blank)
