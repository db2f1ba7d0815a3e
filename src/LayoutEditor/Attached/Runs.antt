-- ===== src/LayoutEditor/Attached/Runs.antt =====
-- The ends of the routes through a run of the layout editor of app/layouts/page.tsx.
use ev_factory_twin.Prelude.{ℕ, refl, arith, String, Bool, List, [], ◌∷◌, All, if-elim}
use ev_factory_twin.Schema.Content.{is_valid_content}
use ev_factory_twin.Schema.Layout.{LayoutVersionContent, LayoutVersion}
use ev_factory_twin.LayoutEditor.{
  LayoutWorkspace, initial_content, reset_draft, preview, number_value, can_save,
}
use ev_factory_twin.LayoutEditor.Stations.{update_station}
use ev_factory_twin.LayoutEditor.Routes.{
  remove_selected_route, selected_route, station_of, update_route_endpoint, cancel_route_drawing,
  add_route_point, select_route,
}
use ev_factory_twin.LayoutEditor.Zones.{
  start_zone_drawing, add_zone_point, undo_zone_point, cancel_zone_drawing, finish_zone_drawing,
  update_zone_id, update_zone_delay, update_zone_point, remove_zone, select_zone, snap_to_footprint,
}
use ev_factory_twin.LayoutEditor.Saving.{
  mount, load_layout, save, save_fails, rename, layout_renamed, rename_fails, open_archive, archive,
  layout_archived, archive_fails, layouts_loaded, load_fails, layout_loaded, layout_saved,
}
use ev_factory_twin.LayoutEditor.Inputs.{
  Input, mounts, gets_list, loses_list, clicks_layout, gets_version, loses_version, clicks_new,
  types_name, types_size, types_config, types_station, drags_station, clicks_map, clicks_station,
  clicks_add_route, clicks_draw_route, clicks_cancel_route, clicks_remove_route, clicks_route,
  picks_end, types_waypoint, clicks_add_zone, clicks_undo_corner, clicks_cancel_zone,
  clicks_finish_zone, clicks_zone, types_zone_id, types_delay, types_corner, clicks_delete_zone,
  submits, gets_saved, loses_save, clicks_rename, gets_renamed, loses_rename, opens_archive,
  confirms_archive, gets_archived, loses_archive, press_map, is_drawing_zone, is_shown, step, run,
}
use ev_factory_twin.LayoutEditor.Attached.Steps.{
  IsAnchored, move_station-IsAnchored, move_found-IsAnchored, redirect_found-IsAnchored,
  remove_route-IsAnchored, add_route-IsAnchored,
}
use ev_factory_twin.LayoutEditor.Sound.{are_distinct}
use ev_factory_twin.LayoutEditor.Attached.Edits.{
  DraftIsAnchored, append_point-keeps, continue_with-keeps, layouts_fail-keeps,
  start_route_drawing-keeps, rename_zone-keeps, set_delay-keeps, set_corner-keeps,
  delete_zone-keeps, update_size-keeps, update_config-keeps, finish_drawing-keeps, rename-keeps,
  archive-keeps,
}

-- Neither types a waypoint nor clicks a station; a version that comes is anchored.
abbrev pub StaysAttached : Input → Type 0
StaysAttached (types_waypoint i j axis value) = ⊥
StaysAttached (clicks_station id) = ⊥
StaysAttached (gets_version v) = IsAnchored v.content
StaysAttached (gets_saved creating_version v) = IsAnchored v.content
StaysAttached _ = Unit

pub initial_content-IsAnchored : IsAnchored initial_content
unfolding are_distinct
initial_content-IsAnchored = record {
  distinct = refl;
  attached =
      ((omega arith, refl, refl), ((omega arith, refl, refl), ((omega arith, refl, refl), tt)));
}

module _ (number_text : ℕ → String) (schema_message : LayoutVersionContent → String) where
  layout_loaded-keeps :
      (v : LayoutVersion) (s : LayoutWorkspace)
      → IsAnchored v.content
      → DraftIsAnchored s
      → DraftIsAnchored (layout_loaded number_text schema_message v s)
  unfolding layout_loaded
  layout_loaded-keeps v s b h =
      if-elim DraftIsAnchored (is_valid_content v.content) (λ _. b) (λ _. h)

  layout_saved-keeps :
      (creating_version : Bool) (v : LayoutVersion) (s : LayoutWorkspace)
      → IsAnchored v.content
      → DraftIsAnchored s
      → DraftIsAnchored (layout_saved number_text schema_message creating_version v s)
  unfolding layout_saved
  layout_saved-keeps creating_version v s b h =
      if-elim DraftIsAnchored (is_valid_content v.content) (λ _. b) (λ _. h)

  step-keeps :
      (i : Input) (s : LayoutWorkspace)
      → StaysAttached i
      → DraftIsAnchored s
      → DraftIsAnchored (step number_text schema_message i s)
  unfolding step mount load_layout save rename archive layout_renamed rename_fails open_archive
      archive_fails load_fails save_fails layouts_loaded layout_archived reset_draft select_zone
      remove_selected_route select_route update_route_endpoint cancel_zone_drawing update_station
      finish_zone_drawing update_zone_id update_zone_delay update_zone_point remove_zone press_map
      add_route_point add_zone_point undo_zone_point start_zone_drawing cancel_route_drawing
  step-keeps mounts s b h = h
  step-keeps (gets_list follow loaded) s b h = continue_with-keeps follow loaded _ h
  step-keeps (loses_list follow message) s b h = layouts_fail-keeps follow message s h
  step-keeps (clicks_layout id) s b h = h
  step-keeps (gets_version v) s b h = layout_loaded-keeps v s b h
  step-keeps (loses_version message) s b h = h
  step-keeps clicks_new s b h = initial_content-IsAnchored
  step-keeps (types_name text) s b h = h
  step-keeps (types_size axis value) s b h = update_size-keeps axis value s h
  step-keeps (types_config field value) s b h = update_config-keeps field value s h
  step-keeps (types_station id axis value) s b h =
      move_found-IsAnchored (station_of id s.draft) id axis (number_value value) s h
  step-keeps (drags_station id p) s b h =
      if-elim DraftIsAnchored (is_shown (preview s)) (λ _. move_station-IsAnchored id p s h)
        (λ _. h)
  step-keeps (clicks_map p) s b h =
      if-elim DraftIsAnchored (is_shown (preview s))
        (λ _.
          if-elim DraftIsAnchored s.route_drawing (λ _. append_point-keeps p s.route_draft s h)
            (λ _. if-elim DraftIsAnchored (is_drawing_zone s.zone_drawing) (λ _. h) (λ _. h)))
        (λ _. h)
  step-keeps (clicks_add_route kind) s b h = add_route-IsAnchored number_text kind s h
  step-keeps (clicks_station id) s b h = elim b [ ]
  step-keeps (types_waypoint i j axis value) s b h = elim b [ ]
  step-keeps clicks_draw_route s b h = start_route_drawing-keeps s h
  step-keeps clicks_cancel_route s b h = if-elim DraftIsAnchored s.route_drawing (λ _. h) (λ _. h)
  step-keeps clicks_remove_route s b h = remove_route-IsAnchored (selected_route s) s h
  step-keeps (clicks_route id) s b h = h
  step-keeps (picks_end index field id) s b h =
      redirect_found-IsAnchored (station_of id s.draft) index field id s refl h
  step-keeps (clicks_add_zone kind) s b h =
      if-elim DraftIsAnchored (is_drawing_zone s.zone_drawing) (λ _. h) (λ _. h)
  step-keeps clicks_undo_corner s b h = h
  step-keeps clicks_cancel_zone s b h = h
  step-keeps clicks_finish_zone s b h = finish_drawing-keeps s.zone_drawing s h
  step-keeps (clicks_zone selection) s b h = h
  step-keeps (types_zone_id selection id) s b h =
      rename_zone-keeps selection.kind selection.index id s.draft h
  step-keeps (types_delay selection value) s b h =
      set_delay-keeps selection.kind selection.index value s.draft h
  step-keeps (types_corner selection j axis value) s b h =
      set_corner-keeps selection.kind selection.index j axis (snap_to_footprint axis value s.draft)
        s.draft h
  step-keeps (clicks_delete_zone selection) s b h =
      delete_zone-keeps selection.kind selection.index s.draft h
  step-keeps submits s b h =
      if-elim DraftIsAnchored s.busy (λ _. h)
        (λ _. if-elim DraftIsAnchored (can_save s) (λ _. h) (λ _. h))
  step-keeps (gets_saved creating_version v) s b h = layout_saved-keeps creating_version v s b h
  step-keeps (loses_save message) s b h = h
  step-keeps clicks_rename s b h =
      if-elim DraftIsAnchored s.busy (λ _. h) (λ _. rename-keeps s.selected s h)
  step-keeps (gets_renamed v) s b h = h
  step-keeps (loses_rename message) s b h = h
  step-keeps (opens_archive opened) s b h = h
  step-keeps confirms_archive s b h = archive-keeps s.selected s h
  step-keeps gets_archived s b h = initial_content-IsAnchored
  step-keeps (loses_archive message) s b h = h

  -- As long as no waypoint is typed and no station is clicked on the map, the stations keep different ids
  -- and every route of the draft runs from the
  -- place of its start station to that of its end station, however stations are moved, routes are added,
  -- removed or given other stations, and layouts are loaded and saved, if that was so at the start and is
  -- so in what the API gives.
  pub run-IsAnchored :
      (inputs : List Input) (s : LayoutWorkspace)
      → All StaysAttached inputs
      → IsAnchored s.draft
      → IsAnchored (run number_text schema_message inputs s).draft
  unfolding run
  run-IsAnchored [] s b h = h
  run-IsAnchored (i ∷ inputs) s b h =
      run-IsAnchored inputs (step number_text schema_message i s) b.1 (step-keeps i s b.0 h)
