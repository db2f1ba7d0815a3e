-- ===== src/Optimization/Counting.antt =====
-- The number of candidates that optimization-panel.tsx shows.
use Prim.Native.String.{String}
use ev_factory_twin.Prelude.{
  ◌≤◌, ◌≡◌, refl, sym, ◌∙◌, arith, Bool, true, false, not, Option, some, List, [], ◌∷◌, leb, map,
  filter, every, length,
}
use ev_factory_twin.Prelude.Int.{pos}
use ev_factory_twin.Prelude.Text.{is_empty}
use ev_factory_twin.Schema.Fleet.{Number}
use ev_factory_twin.Schema.Content.{is_in_range, is_positive_to}
use ev_factory_twin.Schema.Layout.{LayoutSummary}
use ev_factory_twin.Schema.Optimization.{
  OptimizationRequest, request_count, is_valid_request, is_route_id, is_dimension, is_finite_and,
  is_count_to,
}
use ev_factory_twin.Optimization.{
  OptimizationForm, items, values, request_of, form_count, chosen_layouts, layout_candidate,
}

length-map {ℓ κ} :
    {A : Type ℓ} {B : Type κ} (f : A → B) (xs : List A) → length (map f xs) ≡ length xs
length-map f [] = refl
length-map f (x ∷ xs) = ground (arith, length-map f xs)

abbrev is_item : String → Bool
is_item item = not (is_empty item)

filter-every : (xs : List String) → every is_item xs ≡ true → length (filter is_item xs) ≡ length xs
filter-every [] h = refl
filter-every (x ∷ xs) h = ground (arith, filter-every xs)

route-is_item : (x : String) → is_route_id x ≡ true → is_item x ≡ true
route-is_item String.[] h = ground arith
route-is_item (String.◌∷◌ c s) h = refl

routes-are_items : (xs : List String) → every is_route_id xs ≡ true → every is_item xs ≡ true
routes-are_items [] h = refl
routes-are_items (x ∷ xs) h = ground (arith, route-is_item x, routes-are_items xs)

module _ (number : String → Option Number) (number_of_blank : number "" ≡ some (pos 0)) where
  number-is_item :
      (p : Number → Bool) (x : String)
      → p (pos 0) ≡ false
      → is_finite_and p (number x) ≡ true
      → is_item x ≡ true
  number-is_item p String.[] zero_fails h = absurd (let k = rw number_of_blank at h in cc)
  number-is_item p (String.◌∷◌ c s) zero_fails h = refl

  numbers-are_items :
      (p : Number → Bool) (xs : List String)
      → p (pos 0) ≡ false
      → every (is_finite_and p) (map number xs) ≡ true
      → every is_item xs ≡ true
  numbers-are_items p [] zero_fails h = refl
  numbers-are_items p (x ∷ xs) zero_fails h =
      ground (arith, number-is_item p x zero_fails, numbers-are_items p xs zero_fails)

  -- The items that are counted are all that are sent.
  numbers-counted :
      (p : Number → Bool) (text : String)
      → p (pos 0) ≡ false
      → is_dimension (is_finite_and p) (map number (items text)) ≡ true
      → length (values text) ≡ length (map number (items text))
  numbers-counted p text zero_fails h =
      filter-every (items text) (numbers-are_items p (items text) zero_fails (ground arith))
      ∙ sym (length-map number (items text))

  routes-counted :
      (text : String)
      → is_dimension is_route_id (items text) ≡ true
      → length (values text) ≡ length (items text)
  routes-counted text h = filter-every (items text) (routes-are_items (items text) (ground arith))

  -- The request has the dimensions that the schema asks for, and at most 64 candidates.
  abbrev HasDimensions : OptimizationRequest → Type 0
  HasDimensions r =
      (is_dimension is_route_id r.route_ids ≡ true)
      × (is_dimension (is_finite_and (is_count_to 10000)) r.robot_counts ≡ true)
      × (is_dimension (is_finite_and (is_positive_to 10000)) r.robot_speeds_mps ≡ true)
      × (is_dimension (is_finite_and (is_count_to 20000)) r.charger_counts ≡ true)
      × (is_dimension (is_finite_and (is_in_range 1000 60000)) r.demand_intervals ≡ true)
      × (leb (request_count r) 64 ≡ true)

  valid-HasDimensions : (r : OptimizationRequest) → is_valid_request r ≡ true → HasDimensions r
  unfolding is_valid_request
  valid-HasDimensions r h =
      (ground arith, ground arith, ground arith, ground arith, ground arith, ground arith)

  -- If the schema accepts what the form sends, the number of candidates that the panel shows, which
  -- leaves out blank items, is that of the request, and at most 64: if `Number` reads an empty text as
  -- zero, and the form names as many layouts as it chooses of those listed.
  pub accepted_request_counted :
      (layouts : List LayoutSummary) (f : OptimizationForm)
      → length (chosen_layouts layouts f) ≡ length f.optimization_layouts
      → is_valid_request (request_of number layouts f) ≡ true
      → (form_count f ≡ request_count (request_of number layouts f)) × (form_count f ≤ 64)
  unfolding form_count request_count request_of
  accepted_request_counted layouts f listed valid =
      let r = request_of number layouts f in
      let (routes, robots, speeds, chargers, intervals, few) = valid-HasDimensions r valid in
      let same : form_count f ≡ request_count r =
        rw
          (
            sym listed,
            length-map layout_candidate (chosen_layouts layouts f),
            routes-counted f.route_ids routes,
            numbers-counted (is_count_to 10000) f.robot_counts refl robots,
            numbers-counted (is_positive_to 10000) f.robot_speeds_mps refl speeds,
            numbers-counted (is_count_to 20000) f.charger_counts refl chargers,
            numbers-counted (is_in_range 1000 60000) f.demand_intervals refl intervals,
          )
          refl in
      (same, ground arith)
