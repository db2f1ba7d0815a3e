-- ===== src/LayoutEditor/Tests.antt =====
-- Tests of the model of app/layouts/page.tsx.
use ev_factory_twin.Prelude.{
  ℕ, zero, suc, false, All, find, ◌==◌, ◌↔◌, ◌≡◌, refl, arith, String, true, none, some, List, [],
  ◌∷◌,
}
use ev_factory_twin.Schema.Content.{
  is_valid_content, is_valid_station, is_valid_route, is_valid_zone, is_valid_congestion_zone,
  is_valid_config, is_identifier, is_station_reference,
}
use ev_factory_twin.Schema.Layout.{
  delivery, support, battery_buffer, LayoutVersion, LayoutVersionContent, LayoutRoute,
}
use ev_factory_twin.Layout.{point, station, metres}
use ev_factory_twin.LayoutEditor.{
  initial, initial_content, content_version, LayoutWorkspace, throws, preview, congestion_zones,
  x_axis, zone_validation_error, all_zones, number_value,
}
use ev_factory_twin.LayoutEditor.Routes.{
  has_route, new_route_id, select_route_station, select_route, start_end,
}
use ev_factory_twin.LayoutEditor.Inputs.{
  Input, clicks_add_route, drags_station, clicks_draw_route, clicks_station, clicks_map,
  clicks_add_zone, clicks_finish_zone, submits, picks_end, types_station, step, run,
}
use ev_factory_twin.LayoutEditor.Fresh.{new_route_id_unused}
use ev_factory_twin.LayoutEditor.Validation.{HasNewIds, HasCornersWithin, zone_validation_error_iff}
use ev_factory_twin.LayoutEditor.Sound.{IsTidy}
use ev_factory_twin.LayoutEditor.Sound.Steps.{run-IsTidy, initial-IsTidy}
use ev_factory_twin.LayoutEditor.Attached.Steps.{IsAnchored}
use ev_factory_twin.LayoutEditor.Attached.Runs.{run-IsAnchored, initial_content-IsAnchored}
use ev_factory_twin.LayoutEditor.Crash.{preview_throws}
use ev_factory_twin.LayoutEditor.Sending.{Sendable, run-sends_checked}
use ev_factory_twin.LayoutEditor.Switching.{switched_route_gets_drawing}

-- A printing of numbers that tells them apart.
abbrev pub tally : ℕ → String
tally zero = String.[]
tally (suc n) = String.◌∷◌ "I" (tally n)

pub tally_distinct : (j k : ℕ) → tally j ≡ tally k → j ≡ k
tally_distinct zero zero e = refl
tally_distinct zero (suc k) e = cc
tally_distinct (suc j) zero e = cc
tally_distinct (suc j) (suc k) e = ground (arith, tally_distinct j k)

-- What the schema says is not looked at.
abbrev no_message : LayoutVersionContent → String
no_message c = ""

-- A delivery route is added, a station moved, the new route drawn, a zone drawn, and all sent.
abbrev session : List Input
session =
    clicks_add_route delivery
    ∷ drags_station "BATTERY_BUFFER" (point 30 30)
    ∷ clicks_draw_route
    ∷ clicks_station "BATTERY_BUFFER"
    ∷ clicks_map (point 40 20)
    ∷ clicks_station "MARRIAGE_STATION"
    ∷ clicks_add_zone congestion_zones
    ∷ clicks_map (point 1 1)
    ∷ clicks_map (point 2 1)
    ∷ clicks_map (point 2 2)
    ∷ clicks_finish_zone
    ∷ submits
    ∷ []

run-IsTidy_example : IsTidy (run tally no_message session initial)
run-IsTidy_example =
    run-IsTidy tally no_message tally_distinct session initial (omega arith) initial-IsTidy

run-sends_checked_example : All Sendable (run tally no_message session initial).effects
run-sends_checked_example = run-sends_checked tally no_message session initial tt

abbrev moves : List Input
moves =
    clicks_add_route support
    ∷ drags_station "BATTERY_BUFFER" (point 30 30)
    ∷ picks_end 0 start_end "CHARGING_STATION"
    ∷ []

run-IsAnchored_example : IsAnchored (run tally no_message moves initial).draft
run-IsAnchored_example =
    run-IsAnchored tally no_message moves initial (omega arith) initial_content-IsAnchored

new_route_id_unused_example :
    has_route initial_content (new_route_id tally delivery initial_content) ≡ false
new_route_id_unused_example = new_route_id_unused tally tally_distinct delivery initial_content

zone_validation_error_iff_example : (zone_validation_error initial_content ≡ none) ↔ (
    HasNewIds [] (all_zones initial_content)
    × HasCornersWithin initial_content (all_zones initial_content))
zone_validation_error_iff_example = zone_validation_error_iff initial_content

initial_content_valid : is_valid_content initial_content ≡ true
unfolding is_valid_content is_valid_station is_valid_route is_valid_zone is_valid_congestion_zone
    is_valid_config is_identifier is_station_reference
initial_content_valid = refl

-- In the middle of a drawing that began at the battery buffer, the charger's route is selected.
abbrev drawing_delivery : LayoutWorkspace
drawing_delivery = record initial {
  route_drawing = true;
  route_draft = point 32 29 ∷ point 40 20 ∷ [];
}

abbrev charger_link : LayoutRoute
charger_link = record {
  id = "CHARGER_LINK";
  kind = support;
  start_station_id = "CHARGING_STATION";
  end_station_id = "BATTERY_BUFFER";
  waypoints = point 32 11 ∷ point 32 20 ∷ point 32 29 ∷ [];
}

switched_route_gets_drawing_example :
    find
      (λ (r : LayoutRoute). r.id == "CHARGER_LINK")
      (select_route_station "BATTERY_BUFFER"
        (select_route "CHARGER_LINK" drawing_delivery)).draft.routes
    ≡ some (record charger_link { waypoints = point 32 29 ∷ point 40 20 ∷ point 32 29 ∷ [] })
switched_route_gets_drawing_example =
    switched_route_gets_drawing charger_link (station "BATTERY_BUFFER" battery_buffer 32 29)
      (point 32 29) (point 40 20 ∷ []) drawing_delivery refl refl refl

preview_throws_example :
    preview (step tally no_message (types_station "BATTERY_BUFFER" x_axis (metres 121)) initial)
    ≡ throws
unfolding number_value
preview_throws_example =
    preview_throws tally no_message "BATTERY_BUFFER" x_axis (metres 121) initial
      (station "BATTERY_BUFFER" battery_buffer 32 29) initial_content_valid refl refl

abbrev version_of : String → LayoutVersion
version_of id = content_version initial_content id id 1
