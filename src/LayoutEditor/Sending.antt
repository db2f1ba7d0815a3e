-- ===== src/LayoutEditor/Sending.antt =====
-- What the layout editor of app/layouts/page.tsx sends to be stored.
use ev_factory_twin.Prelude.{
  ℕ, ◌≡◌, arith, String, true, Option, none, some, List, [], ◌∷◌, ◌++◌, All, All-append, if-elim,
}
use ev_factory_twin.Schema.Layout.{
  LayoutVersionContent, LayoutVersion, LayoutSummary, WorldPoint, Station, LayoutRoute,
}
use ev_factory_twin.Schema.Content.{is_valid_content}
use ev_factory_twin.LayoutEditor.{
  LayoutWorkspace, Effect, gets_layouts, gets_layout, creates_layout, creates_version, renames,
  archives, toasts_success, toasts_error, x_axis, y_axis, Follow, after_mount, after_save,
  after_rename, after_archive, reset_draft, can_save, zone_validation_error,
}
use ev_factory_twin.LayoutEditor.Stations.{
  robot_count, demand_interval_seconds, robot_speed_mps, charger_count, move_station,
  update_station, update_size, update_config,
}
use ev_factory_twin.LayoutEditor.Routes.{
  remove_selected_route, selected_route, station_of, add_route, update_route_endpoint,
  start_route_drawing, cancel_route_drawing, add_route_point, append_point, select_route,
  select_route_station, select_found, visit_station, update_waypoint,
}
use ev_factory_twin.LayoutEditor.Zones.{
  start_zone_drawing, add_zone_point, undo_zone_point, cancel_zone_drawing, finish_zone_drawing,
  update_zone_id, update_zone_delay, update_zone_point, remove_zone, select_zone,
}
use ev_factory_twin.LayoutEditor.Saving.{
  mount, load_layout, save, save_fails, rename, layout_renamed, rename_fails, open_archive, archive,
  layout_archived, archive_fails, layouts_loaded, layouts_fail, load_fails, layout_loaded,
  layout_saved, store_draft, continue_with, rename_selected, archive_selected,
}
use ev_factory_twin.LayoutEditor.Inputs.{
  Input, mounts, gets_list, loses_list, clicks_layout, gets_version, loses_version, clicks_new,
  types_name, types_size, types_config, types_station, drags_station, clicks_map, clicks_station,
  clicks_add_route, clicks_draw_route, clicks_cancel_route, clicks_remove_route, clicks_route,
  picks_end, types_waypoint, clicks_add_zone, clicks_undo_corner, clicks_cancel_zone,
  clicks_finish_zone, clicks_zone, types_zone_id, types_delay, types_corner, clicks_delete_zone,
  submits, gets_saved, loses_save, clicks_rename, gets_renamed, loses_rename, opens_archive,
  confirms_archive, gets_archived, loses_archive, press_map, press_station, step, run,
}

-- The page checks what it asks to store.
abbrev pub Sendable : Effect → Type 0
Sendable (creates_layout name c) = (is_valid_content c ≡ true) × (zone_validation_error c ≡ none)
Sendable (creates_version id c) = (is_valid_content c ≡ true) × (zone_validation_error c ≡ none)
Sendable _ = Unit

abbrev SendsChecked : LayoutWorkspace → Type 0
SendsChecked s = All Sendable s.effects

performs :
    (e : Effect) (effects : List Effect)
    → Sendable e
    → All Sendable effects
    → All Sendable (effects ++ e ∷ [])
performs e effects fine h = All-append Sendable effects (e ∷ []) h (fine, tt)

append_point-sends :
    (p : WorldPoint) (ps : List WorldPoint) (s : LayoutWorkspace)
    → SendsChecked s
    → SendsChecked (append_point p ps s)
append_point-sends p [] s h = h
append_point-sends p (q ∷ qs) s h = h

visit_station-sends :
    (ps : List WorldPoint) (route : LayoutRoute) (t : Station) (id : String) (s : LayoutWorkspace)
    → SendsChecked s
    → SendsChecked (visit_station ps route t id s)
visit_station-sends [] route t id s h = ground arith
visit_station-sends (q ∷ qs) route t id s h = ground arith

select_found-sends :
    (route : Option LayoutRoute) (t : Option Station) (id : String) (s : LayoutWorkspace)
    → SendsChecked s
    → SendsChecked (select_found route t id s)
select_found-sends none t id s h = h
select_found-sends (some route) none id s h = h
select_found-sends (some route) (some t) id s h = visit_station-sends s.route_draft route t id s h

continue_with-sends :
    (follow : Follow) (loaded : List LayoutSummary) (s : LayoutWorkspace)
    → SendsChecked s
    → SendsChecked (continue_with follow loaded s)
unfolding load_layout
continue_with-sends after_mount [] s h = h
continue_with-sends after_mount (l ∷ ls) s h = performs (gets_layout l.id) s.effects tt h
continue_with-sends (after_save text) loaded s h = performs (toasts_success text) s.effects tt h
continue_with-sends after_rename loaded s h = h
continue_with-sends after_archive loaded s h = h

layouts_fail-sends :
    (follow : Follow) (message : String) (s : LayoutWorkspace)
    → SendsChecked s
    → SendsChecked (layouts_fail follow message s)
unfolding layouts_fail
layouts_fail-sends after_mount message s h = h
layouts_fail-sends (after_save text) message s h = performs _ s.effects tt h
layouts_fail-sends after_rename message s h = h
layouts_fail-sends after_archive message s h = h

rename_selected-sends :
    (v : Option LayoutVersion) (s : LayoutWorkspace)
    → SendsChecked s
    → SendsChecked (rename_selected v s)
rename_selected-sends none s h = h
rename_selected-sends (some v) s h = performs (renames v.layout_id s.name) s.effects tt h

archive_selected-sends :
    (v : Option LayoutVersion) (s : LayoutWorkspace)
    → SendsChecked s
    → SendsChecked (archive_selected v s)
archive_selected-sends none s h = h
archive_selected-sends (some v) s h = performs (archives v.layout_id) s.effects tt h

store_draft-Sendable :
    (v : Option LayoutVersion) (s : LayoutWorkspace)
    → can_save s ≡ true
    → Sendable (store_draft v s)
unfolding can_save
store_draft-Sendable none s ok = ground arith
store_draft-Sendable (some v) s ok = ground arith

save-sends : (s : LayoutWorkspace) → SendsChecked s → SendsChecked (save s)
unfolding save
save-sends s h =
    if-elim SendsChecked (can_save s)
      (λ ok. performs (store_draft s.selected s) s.effects (store_draft-Sendable s.selected s ok) h)
      (λ _. h)

module _ (number_text : ℕ → String) (schema_message : LayoutVersionContent → String) where
  step-sends :
      (i : Input) (s : LayoutWorkspace)
      → SendsChecked s
      → SendsChecked (step number_text schema_message i s)
  unfolding step mount load_layout rename archive layout_renamed rename_fails open_archive
      archive_fails load_fails save_fails layouts_loaded layout_archived reset_draft select_zone
      remove_selected_route select_route update_route_endpoint cancel_zone_drawing update_station
      finish_zone_drawing update_zone_id update_zone_delay update_zone_point remove_zone press_map
      add_route_point add_zone_point undo_zone_point start_zone_drawing cancel_route_drawing
      layout_loaded layout_saved start_route_drawing move_station press_station select_route_station
      update_size update_config update_waypoint add_route
  step-sends mounts s h = performs (gets_layouts after_mount) s.effects tt h
  step-sends (gets_list follow loaded) s h = continue_with-sends follow loaded _ h
  step-sends (loses_list follow message) s h = layouts_fail-sends follow message s h
  step-sends (clicks_layout id) s h = performs (gets_layout id) s.effects tt h
  step-sends (gets_version v) s h = ground arith
  step-sends (loses_version message) s h = h
  step-sends clicks_new s h = h
  step-sends (types_name text) s h = h
  step-sends (types_size x_axis value) s h = h
  step-sends (types_size y_axis value) s h = h
  step-sends (types_config robot_count value) s h = h
  step-sends (types_config demand_interval_seconds value) s h = h
  step-sends (types_config robot_speed_mps value) s h = h
  step-sends (types_config charger_count value) s h = h
  step-sends (types_station id axis value) s h = ground arith
  step-sends (drags_station id p) s h = ground arith
  step-sends (clicks_map p) s h = ground (arith, append_point-sends p s.route_draft s h)
  step-sends (clicks_station id) s h =
      ground (arith, select_found-sends (selected_route s) (station_of id s.draft) id s h)
  step-sends (clicks_add_route kind) s h = ground arith
  step-sends clicks_draw_route s h = ground arith
  step-sends clicks_cancel_route s h = ground arith
  step-sends clicks_remove_route s h = ground arith
  step-sends (clicks_route id) s h = h
  step-sends (picks_end index field id) s h = ground arith
  step-sends (types_waypoint i j axis value) s h = h
  step-sends (clicks_add_zone kind) s h = ground arith
  step-sends clicks_undo_corner s h = h
  step-sends clicks_cancel_zone s h = h
  step-sends clicks_finish_zone s h = ground arith
  step-sends (clicks_zone selection) s h = h
  step-sends (types_zone_id selection id) s h = h
  step-sends (types_delay selection value) s h = h
  step-sends (types_corner selection j axis value) s h = h
  step-sends (clicks_delete_zone selection) s h = h
  step-sends submits s h = if-elim SendsChecked s.busy (λ _. h) (λ _. save-sends s h)
  step-sends (gets_saved creating_version v) s h =
      if-elim SendsChecked (is_valid_content v.content)
        (λ _. performs (gets_layouts (after_save _)) s.effects tt h)
        (λ _. performs (toasts_error _) s.effects tt h)
  step-sends (loses_save message) s h = performs _ s.effects tt h
  step-sends clicks_rename s h =
      if-elim SendsChecked s.busy (λ _. h) (λ _. rename_selected-sends s.selected s h)
  step-sends (gets_renamed v) s h = performs (gets_layouts after_rename) s.effects tt h
  step-sends (loses_rename message) s h = h
  step-sends (opens_archive opened) s h = h
  step-sends confirms_archive s h = archive_selected-sends s.selected s h
  step-sends gets_archived s h = performs (gets_layouts after_archive) s.effects tt h
  step-sends (loses_archive message) s h = h

  -- Whatever happens to the editor, all that it has sent to be stored is content that the schema accepts
  -- and in which the zone check finds no fault, if that is so of what was sent before.
  pub run-sends_checked :
      (inputs : List Input) (s : LayoutWorkspace)
      → All Sendable s.effects
      → All Sendable (run number_text schema_message inputs s).effects
  unfolding run
  run-sends_checked [] s h = h
  run-sends_checked (i ∷ inputs) s h =
      run-sends_checked inputs (step number_text schema_message i s) (step-sends i s h)
