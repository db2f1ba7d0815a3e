-- ===== src/LayoutEditor/Inputs.antt =====
-- What happens to the layout editor of app/layouts/page.tsx: the user's doings, as far as the page offers
-- them in its state, and the answers of the API.
use ev_factory_twin.Prelude.{
  ℕ, String, Bool, true, false, Option, none, some, List, [], ◌∷◌, if◌then◌else◌,
}
use ev_factory_twin.Schema.Fleet.{Number}
use ev_factory_twin.Schema.Layout.{
  WorldPoint, RouteKind, LayoutVersionContent, LayoutVersion, LayoutSummary,
}
use ev_factory_twin.LayoutEditor.{
  LayoutWorkspace, ZoneKind, ZoneSelection, ZoneDrawing, Axis, Follow, Preview, shows, preview,
  number_value, reset_draft,
}
use ev_factory_twin.LayoutEditor.Stations.{
  ConfigField, move_station, update_station, update_size, update_config,
}
use ev_factory_twin.LayoutEditor.Routes.{
  RouteEnd, cancel_route_drawing, start_route_drawing, add_route_point, select_route_station,
  add_route, remove_selected_route, update_route_endpoint, update_waypoint, select_route,
}
use ev_factory_twin.LayoutEditor.Zones.{
  start_zone_drawing, add_zone_point, undo_zone_point, cancel_zone_drawing, finish_zone_drawing,
  update_zone_id, update_zone_delay, update_zone_point, remove_zone, select_zone,
}
use ev_factory_twin.LayoutEditor.Saving.{
  mount, load_layout, save, save_fails, rename, layout_renamed, rename_fails, open_archive, archive,
  layout_archived, archive_fails, layouts_loaded, layouts_fail, load_fails, layout_loaded,
  layout_saved,
}

pub data Input : Type 0 where
  mounts : Input
  gets_list : Follow → List LayoutSummary → Input
  loses_list : Follow → String → Input
  clicks_layout : String → Input
  gets_version : LayoutVersion → Input
  loses_version : String → Input
  clicks_new : Input
  types_name : String → Input
  types_size : Axis → Number → Input
  types_config : ConfigField → Number → Input
  types_station : String → Axis → Number → Input
  drags_station : String → WorldPoint → Input
  clicks_map : WorldPoint → Input
  clicks_station : String → Input
  clicks_add_route : RouteKind → Input
  clicks_draw_route : Input
  clicks_cancel_route : Input
  clicks_remove_route : Input
  clicks_route : String → Input
  picks_end : ℕ → RouteEnd → String → Input
  types_waypoint : ℕ → ℕ → Axis → Number → Input
  clicks_add_zone : ZoneKind → Input
  clicks_undo_corner : Input
  clicks_cancel_zone : Input
  clicks_finish_zone : Input
  clicks_zone : ZoneSelection → Input
  -- the text in capitals
  types_zone_id : ZoneSelection → String → Input
  types_delay : ZoneSelection → Number → Input
  types_corner : ZoneSelection → ℕ → Axis → Number → Input
  clicks_delete_zone : ZoneSelection → Input
  submits : Input
  gets_saved : Bool → LayoutVersion → Input
  loses_save : String → Input
  clicks_rename : Input
  gets_renamed : LayoutVersion → Input
  loses_rename : String → Input
  opens_archive : Bool → Input
  confirms_archive : Input
  gets_archived : Input
  loses_archive : String → Input

abbrev pub is_shown : Preview → Bool
is_shown (shows layout) = true
is_shown _ = false

abbrev pub is_drawing_zone : Option ZoneDrawing → Bool
is_drawing_zone none = false
is_drawing_zone (some d) = true

abbrev pub set_name : String → LayoutWorkspace → LayoutWorkspace
set_name text s = record s { name = text }

-- The map is there while there is a preview.
abbrev pub on_map : (LayoutWorkspace → LayoutWorkspace) → LayoutWorkspace → LayoutWorkspace
on_map f s = if is_shown (preview s) then f s else s

-- `handlePointerDown` of components/factory/factory-plant-map-2d.tsx, for the editor.
unfoldable pub press_map : WorldPoint → LayoutWorkspace → LayoutWorkspace
unfolding add_route_point add_zone_point
press_map p s =
    if s.route_drawing
    then add_route_point p s
    else if is_drawing_zone s.zone_drawing
    then add_zone_point p s
    else s

-- The pointer on a station of the map: outside of a route's drawing it begins to drag.
unfoldable pub press_station : String → LayoutWorkspace → LayoutWorkspace
unfolding select_route_station
press_station id s = if s.route_drawing then select_route_station id s else s

abbrev pub unless_busy : (LayoutWorkspace → LayoutWorkspace) → LayoutWorkspace → LayoutWorkspace
unless_busy f s = if s.busy then s else f s

module _ (number_text : ℕ → String) (schema_message : LayoutVersionContent → String) where
  unfoldable pub step : Input → LayoutWorkspace → LayoutWorkspace
  step mounts s = mount s
  step (gets_list follow loaded) s = layouts_loaded follow loaded s
  step (loses_list follow message) s = layouts_fail follow message s
  step (clicks_layout id) s = load_layout id s
  step (gets_version v) s = layout_loaded number_text schema_message v s
  step (loses_version message) s = load_fails message s
  step clicks_new s = reset_draft s
  step (types_name text) s = set_name text s
  step (types_size axis value) s = update_size axis value s
  step (types_config field value) s = update_config field value s
  step (types_station id axis value) s = update_station id axis (number_value value) s
  step (drags_station id p) s = on_map (move_station id p) s
  step (clicks_map p) s = on_map (press_map p) s
  step (clicks_station id) s = on_map (press_station id) s
  step (clicks_add_route kind) s = add_route number_text kind s
  step clicks_draw_route s = start_route_drawing s
  step clicks_cancel_route s = if s.route_drawing then cancel_route_drawing s else s
  step clicks_remove_route s = remove_selected_route s
  step (clicks_route id) s = select_route id s
  step (picks_end index field id) s = update_route_endpoint index field id s
  step (types_waypoint i j axis value) s = update_waypoint i j axis (number_value value) s
  step (clicks_add_zone kind) s =
      if is_drawing_zone s.zone_drawing then s else start_zone_drawing number_text kind s
  step clicks_undo_corner s = undo_zone_point s
  step clicks_cancel_zone s = cancel_zone_drawing s
  step clicks_finish_zone s = finish_zone_drawing s
  step (clicks_zone selection) s = select_zone selection s
  step (types_zone_id selection id) s = update_zone_id selection id s
  step (types_delay selection value) s = update_zone_delay selection value s
  step (types_corner selection j axis value) s = update_zone_point selection j axis value s
  step (clicks_delete_zone selection) s = remove_zone selection s
  step submits s = unless_busy save s
  step (gets_saved creating_version v) s =
      layout_saved number_text schema_message creating_version v s
  step (loses_save message) s = save_fails message s
  step clicks_rename s = unless_busy rename s
  step (gets_renamed v) s = layout_renamed v s
  step (loses_rename message) s = rename_fails message s
  step (opens_archive opened) s = open_archive opened s
  step confirms_archive s = archive s
  step gets_archived s = layout_archived s
  step (loses_archive message) s = archive_fails message s

  unfoldable pub run : List Input → LayoutWorkspace → LayoutWorkspace
  run [] s = s
  run (i ∷ inputs) s = run inputs (step i s)
