-- ===== src/LayoutEditor/Sound/Steps.antt =====
-- Each input of the layout editor of app/layouts/page.tsx, and every run of them, against the invariant.
use ev_factory_twin.Prelude.{ℕ, ◌≡◌, refl, arith, String, Bool, List, [], ◌∷◌, All, if-elim}
use ev_factory_twin.Schema.Layout.{LayoutVersionContent, LayoutVersion, LayoutSummary}
use ev_factory_twin.LayoutEditor.{
  LayoutWorkspace, Follow, after_mount, after_save, after_rename, after_archive, initial,
  initial_content, reset_draft, number_value, preview,
}
use ev_factory_twin.LayoutEditor.Stations.{update_station}
use ev_factory_twin.LayoutEditor.Routes.{
  add_route, remove_selected_route, selected_route, update_route_endpoint, select_route, station_of,
}
use ev_factory_twin.LayoutEditor.Zones.{
  cancel_zone_drawing, finish_zone_drawing, update_zone_id, rename_zone, update_zone_delay,
  set_delay, update_zone_point, set_corner, remove_zone, select_zone, snap_to_footprint,
}
use ev_factory_twin.LayoutEditor.Saving.{
  mount, load_layout, save, save_fails, rename, layout_renamed, rename_fails, open_archive, archive,
  layout_archived, archive_fails, layouts_loaded, layouts_fail, load_fails, layout_loaded,
  layout_saved, continue_with,
}
use ev_factory_twin.LayoutEditor.Inputs.{
  Input, mounts, gets_list, loses_list, clicks_layout, gets_version, loses_version, clicks_new,
  types_name, types_size, types_config, types_station, drags_station, clicks_map, clicks_station,
  clicks_add_route, clicks_draw_route, clicks_cancel_route, clicks_remove_route, clicks_route,
  picks_end, types_waypoint, clicks_add_zone, clicks_undo_corner, clicks_cancel_zone,
  clicks_finish_zone, clicks_zone, types_zone_id, types_delay, types_corner, clicks_delete_zone,
  submits, gets_saved, loses_save, clicks_rename, gets_renamed, loses_rename, opens_archive,
  confirms_archive, gets_archived, loses_archive, is_drawing_zone, is_shown, step, run,
}
use ev_factory_twin.LayoutEditor.Sound.{HasRoutes, IsTidy, are_distinct}
use ev_factory_twin.LayoutEditor.Sound.Paths.{
  on_draft-IsTidy, move_station-IsTidy, move_found-IsTidy, update_size-IsTidy, update_config-IsTidy,
  start_route_drawing-IsTidy, cancel_route_drawing-IsTidy, press_map-IsTidy, press_station-IsTidy,
  redirect_found-IsTidy, update_waypoint-IsTidy, remove_route-IsTidy, add_between-IsTidy,
}
use ev_factory_twin.LayoutEditor.Sound.ZoneEdits.{
  start_zone_drawing-IsTidy, undo_zone_point-IsTidy, finish_drawing-IsTidy, rename_zone-HasRoutes,
  set_delay-HasRoutes, set_corner-HasRoutes, delete_zone-HasRoutes,
}

initial_content-HasRoutes : HasRoutes initial_content
unfolding are_distinct
initial_content-HasRoutes = record { distinct = refl; delivers = refl }

reset_draft-IsTidy : (s : LayoutWorkspace) → IsTidy (reset_draft s)
unfolding reset_draft
reset_draft-IsTidy s = record {
  routes = initial_content-HasRoutes;
  undrawn = λ h. refl;
  one_drawing = λ h. refl;
  few_corners = omega arith;
}

continue_with-IsTidy :
    (follow : Follow) (loaded : List LayoutSummary) {s : LayoutWorkspace}
    → IsTidy s
    → IsTidy (continue_with follow loaded s)
unfolding load_layout
continue_with-IsTidy after_mount [] h = h
continue_with-IsTidy after_mount (l ∷ ls) h = ground arith
continue_with-IsTidy (after_save text) loaded h = ground arith
continue_with-IsTidy after_rename loaded h = ground arith
continue_with-IsTidy after_archive loaded h = ground arith

layouts_fail-IsTidy :
    (follow : Follow) (message : String) {s : LayoutWorkspace}
    → IsTidy s
    → IsTidy (layouts_fail follow message s)
unfolding layouts_fail
layouts_fail-IsTidy after_mount message h = ground arith
layouts_fail-IsTidy (after_save text) message h = ground arith
layouts_fail-IsTidy after_rename message h = ground arith
layouts_fail-IsTidy after_archive message h = ground arith

module _ (number_text : ℕ → String) (schema_message : LayoutVersionContent → String) where
  layout_loaded-IsTidy :
      (v : LayoutVersion) {s : LayoutWorkspace}
      → HasRoutes v.content
      → IsTidy s
      → IsTidy (layout_loaded number_text schema_message v s)
  unfolding layout_loaded
  layout_loaded-IsTidy v routes h = ground arith

  layout_saved-IsTidy :
      (creating_version : Bool) (v : LayoutVersion) {s : LayoutWorkspace}
      → HasRoutes v.content
      → IsTidy s
      → IsTidy (layout_saved number_text schema_message creating_version v s)
  unfolding layout_saved
  layout_saved-IsTidy creating_version v routes h = ground arith

  -- The versions that the API gives have their routes in order.
  abbrev pub BringsRoutes : Input → Type 0
  BringsRoutes (gets_version v) = HasRoutes v.content
  BringsRoutes (gets_saved creating_version v) = HasRoutes v.content
  BringsRoutes _ = Unit

  module _ (distinct : (j k : ℕ) → number_text j ≡ number_text k → j ≡ k) where
    step-IsTidy :
        (i : Input) {s : LayoutWorkspace}
        → BringsRoutes i
        → IsTidy s
        → IsTidy (step number_text schema_message i s)
    unfolding step mount load_layout save rename archive layout_renamed rename_fails open_archive
        archive_fails load_fails save_fails layouts_loaded layout_archived add_route
        remove_selected_route select_route update_route_endpoint cancel_zone_drawing
        finish_zone_drawing select_zone update_zone_id update_zone_delay update_zone_point
        remove_zone update_station
    step-IsTidy mounts b h = ground arith
    step-IsTidy (gets_list follow loaded) b h = continue_with-IsTidy follow loaded (ground arith)
    step-IsTidy (loses_list follow message) b h = layouts_fail-IsTidy follow message h
    step-IsTidy (clicks_layout id) b h = ground arith
    step-IsTidy (gets_version v) b h = layout_loaded-IsTidy v b h
    step-IsTidy (loses_version message) b h = ground arith
    step-IsTidy clicks_new {s} b h = reset_draft-IsTidy s
    step-IsTidy (types_name text) b h = ground arith
    step-IsTidy (types_size axis value) b h = update_size-IsTidy axis value h
    step-IsTidy (types_config field value) b h = update_config-IsTidy field value h
    step-IsTidy (types_station id axis value) {s} b h =
        move_found-IsTidy (station_of id s.draft) id axis (number_value value) h
    step-IsTidy (drags_station id p) {s} b h =
        if-elim IsTidy (is_shown (preview s)) (λ _. move_station-IsTidy id p h) (λ _. h)
    step-IsTidy (clicks_map p) {s} b h =
        if-elim IsTidy (is_shown (preview s)) (λ _. press_map-IsTidy p h) (λ _. h)
    step-IsTidy (clicks_station id) {s} b h =
        if-elim IsTidy (is_shown (preview s)) (λ _. press_station-IsTidy id h) (λ _. h)
    step-IsTidy (clicks_add_route kind) {s} b h = add_between-IsTidy number_text distinct kind _ _ h
    step-IsTidy clicks_draw_route b h = start_route_drawing-IsTidy h
    step-IsTidy clicks_cancel_route {s} b h =
        if-elim IsTidy s.route_drawing (λ _. cancel_route_drawing-IsTidy h) (λ _. h)
    step-IsTidy clicks_remove_route {s} b h = remove_route-IsTidy (selected_route s) h
    step-IsTidy (clicks_route id) b h = ground arith
    step-IsTidy (picks_end index field id) {s} b h =
        redirect_found-IsTidy (station_of id s.draft) index field id h
    step-IsTidy (types_waypoint i j axis value) b h =
        update_waypoint-IsTidy i j axis (number_value value) h
    step-IsTidy (clicks_add_zone kind) {s} b h =
        if-elim IsTidy (is_drawing_zone s.zone_drawing) (λ _. h)
          (λ _. start_zone_drawing-IsTidy number_text kind h)
    step-IsTidy clicks_undo_corner b h = undo_zone_point-IsTidy h
    step-IsTidy clicks_cancel_zone b h = ground arith
    step-IsTidy clicks_finish_zone {s} b h = finish_drawing-IsTidy s.zone_drawing h
    step-IsTidy (clicks_zone selection) b h = ground arith
    step-IsTidy (types_zone_id selection id) {s} b h =
        on_draft-IsTidy (rename_zone selection.kind selection.index id)
          (rename_zone-HasRoutes selection.kind selection.index id s.draft h.routes) h
    step-IsTidy (types_delay selection value) {s} b h =
        on_draft-IsTidy (set_delay selection.kind selection.index value)
          (set_delay-HasRoutes selection.kind selection.index value s.draft h.routes) h
    step-IsTidy (types_corner selection j axis value) {s} b h =
        let snapped = snap_to_footprint axis value s.draft in
        on_draft-IsTidy (set_corner selection.kind selection.index j axis snapped)
          (set_corner-HasRoutes selection.kind selection.index j axis snapped s.draft h.routes) h
    step-IsTidy (clicks_delete_zone selection) {s} b h =
        ground (arith, delete_zone-HasRoutes selection.kind selection.index s.draft h.routes)
    step-IsTidy submits b h = ground arith
    step-IsTidy (gets_saved creating_version v) b h = layout_saved-IsTidy creating_version v b h
    step-IsTidy (loses_save message) b h = ground arith
    step-IsTidy clicks_rename b h = ground arith
    step-IsTidy (gets_renamed v) b h = ground arith
    step-IsTidy (loses_rename message) b h = ground arith
    step-IsTidy (opens_archive opened) b h = ground arith
    step-IsTidy confirms_archive b h = ground arith
    step-IsTidy gets_archived {s} b h = ground (arith, reset_draft-IsTidy s)
    step-IsTidy (loses_archive message) b h = ground arith

    -- Whatever happens to the editor, its routes keep different ids and one of them is for deliveries,
    -- the points of a route that is not drawn any more are gone, a route and a zone are not drawn at
    -- once, and a zone in drawing has at most 100 corners, if that was so at the start, the versions
    -- that the API gives have such routes, and different numbers are printed differently.
    pub run-IsTidy :
        (inputs : List Input) (s : LayoutWorkspace)
        → All BringsRoutes inputs
        → IsTidy s
        → IsTidy (run number_text schema_message inputs s)
    unfolding run
    run-IsTidy [] s b h = h
    run-IsTidy (i ∷ inputs) s b h =
        run-IsTidy inputs (step number_text schema_message i s) b.1 (step-IsTidy i b.0 h)

pub initial-IsTidy : IsTidy initial
initial-IsTidy = record {
  routes = initial_content-HasRoutes;
  undrawn = λ h. refl;
  one_drawing = λ h. refl;
  few_corners = omega arith;
}
