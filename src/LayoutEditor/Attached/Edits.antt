-- ===== src/LayoutEditor/Attached/Edits.antt =====
-- What does not move the ends of routes in app/layouts/page.tsx, or moves them along.
use ev_factory_twin.Prelude.{
  ℕ, String, true, Option, none, some, List, [], ◌∷◌, if-elim, ltb, length,
}
use ev_factory_twin.Schema.Layout.{
  LayoutRoute, LayoutVersionContent, LayoutVersion, LayoutSummary, WorldPoint,
}
use ev_factory_twin.Schema.Fleet.{Number}
use ev_factory_twin.LayoutEditor.{
  LayoutWorkspace, ZoneDrawing, ZoneKind, no_go_zones, congestion_zones, Axis, x_axis, y_axis,
  Follow, after_mount, after_save, after_rename, after_archive,
}
use ev_factory_twin.LayoutEditor.Stations.{
  ConfigField, robot_count, demand_interval_seconds, robot_speed_mps, charger_count, update_size,
  update_config,
}
use ev_factory_twin.LayoutEditor.Routes.{selected_route, start_route_drawing, append_point}
use ev_factory_twin.LayoutEditor.Zones.{
  finish_drawing, insert_zone, rename_zone, set_delay, set_corner, delete_zone,
}
use ev_factory_twin.LayoutEditor.Saving.{
  load_layout, layouts_fail, continue_with, rename_selected, archive_selected,
}
use ev_factory_twin.LayoutEditor.Attached.Steps.{IsAnchored}

abbrev pub DraftIsAnchored : LayoutWorkspace → Type 0
DraftIsAnchored s = IsAnchored s.draft

pub append_point-keeps :
    (p : WorldPoint) (drawn : List WorldPoint) (s : LayoutWorkspace)
    → DraftIsAnchored s
    → DraftIsAnchored (append_point p drawn s)
append_point-keeps p [] s h = h
append_point-keeps p (q ∷ qs) s h = h

pub continue_with-keeps :
    (follow : Follow) (loaded : List LayoutSummary) (s : LayoutWorkspace)
    → DraftIsAnchored s
    → DraftIsAnchored (continue_with follow loaded s)
unfolding load_layout
continue_with-keeps after_mount [] s h = h
continue_with-keeps after_mount (l ∷ ls) s h = h
continue_with-keeps (after_save text) loaded s h = h
continue_with-keeps after_rename loaded s h = h
continue_with-keeps after_archive loaded s h = h

pub layouts_fail-keeps :
    (follow : Follow) (message : String) (s : LayoutWorkspace)
    → DraftIsAnchored s
    → DraftIsAnchored (layouts_fail follow message s)
unfolding layouts_fail
layouts_fail-keeps after_mount message s h = h
layouts_fail-keeps (after_save text) message s h = h
layouts_fail-keeps after_rename message s h = h
layouts_fail-keeps after_archive message s h = h

pub start_route_drawing-keeps :
    (s : LayoutWorkspace) → DraftIsAnchored s → DraftIsAnchored (start_route_drawing s)
unfolding start_route_drawing
start_route_drawing-keeps s h =
    elim (selected_route s)
      as (λ (o : Option LayoutRoute). DraftIsAnchored (elim o [
        | none ↦ s
        | some _ ↦ record s {
          route_drawing = true;
          route_draft = [];
          zone_drawing = none;
          notice = none;
        }
      ])) [ none ↦ h | some _ ↦ h ]

pub insert_zone-keeps :
    (kind : ZoneKind) (id : String) (points : List WorldPoint) (c : LayoutVersionContent)
    → IsAnchored c
    → IsAnchored (insert_zone kind id points c)
insert_zone-keeps no_go_zones id points c h = record {
  distinct = h.distinct;
  attached = h.attached;
}
insert_zone-keeps congestion_zones id points c h = record {
  distinct = h.distinct;
  attached = h.attached;
}

pub rename_zone-keeps :
    (kind : ZoneKind) (k : ℕ) (id : String) (c : LayoutVersionContent)
    → IsAnchored c
    → IsAnchored (rename_zone kind k id c)
rename_zone-keeps no_go_zones k id c h = record { distinct = h.distinct; attached = h.attached }
rename_zone-keeps congestion_zones k id c h = record {
  distinct = h.distinct;
  attached = h.attached;
}

pub set_delay-keeps :
    (kind : ZoneKind) (k : ℕ) (value : Number) (c : LayoutVersionContent)
    → IsAnchored c
    → IsAnchored (set_delay kind k value c)
set_delay-keeps no_go_zones k value c h = h
set_delay-keeps congestion_zones k value c h = record {
  distinct = h.distinct;
  attached = h.attached;
}

pub set_corner-keeps :
    (kind : ZoneKind) (k j : ℕ) (axis : Axis) (value : Number) (c : LayoutVersionContent)
    → IsAnchored c
    → IsAnchored (set_corner kind k j axis value c)
set_corner-keeps no_go_zones k j axis value c h = record {
  distinct = h.distinct;
  attached = h.attached;
}
set_corner-keeps congestion_zones k j axis value c h = record {
  distinct = h.distinct;
  attached = h.attached;
}

pub delete_zone-keeps :
    (kind : ZoneKind) (k : ℕ) (c : LayoutVersionContent)
    → IsAnchored c
    → IsAnchored (delete_zone kind k c)
delete_zone-keeps no_go_zones k c h = record { distinct = h.distinct; attached = h.attached }
delete_zone-keeps congestion_zones k c h = record { distinct = h.distinct; attached = h.attached }

pub update_size-keeps :
    (axis : Axis) (value : Number) (s : LayoutWorkspace)
    → DraftIsAnchored s
    → DraftIsAnchored (update_size axis value s)
unfolding update_size
update_size-keeps x_axis value s h = record { distinct = h.distinct; attached = h.attached }
update_size-keeps y_axis value s h = record { distinct = h.distinct; attached = h.attached }

pub update_config-keeps :
    (field : ConfigField) (value : Number) (s : LayoutWorkspace)
    → DraftIsAnchored s
    → DraftIsAnchored (update_config field value s)
unfolding update_config
update_config-keeps robot_count value s h = record { distinct = h.distinct; attached = h.attached }
update_config-keeps demand_interval_seconds value s h = record {
  distinct = h.distinct;
  attached = h.attached;
}
update_config-keeps robot_speed_mps value s h = record {
  distinct = h.distinct;
  attached = h.attached;
}
update_config-keeps charger_count value s h = record {
  distinct = h.distinct;
  attached = h.attached;
}

pub finish_drawing-keeps :
    (d : Option ZoneDrawing) (s : LayoutWorkspace)
    → DraftIsAnchored s
    → DraftIsAnchored (finish_drawing d s)
finish_drawing-keeps none s h = h
finish_drawing-keeps (some d) s h =
    if-elim DraftIsAnchored (ltb (length d.points) 3) (λ _. h)
      (λ _. insert_zone-keeps d.kind d.id d.points s.draft h)

pub rename-keeps :
    (v : Option LayoutVersion) (s : LayoutWorkspace)
    → DraftIsAnchored s
    → DraftIsAnchored (rename_selected v s)
rename-keeps none s h = h
rename-keeps (some v) s h = h

pub archive-keeps :
    (v : Option LayoutVersion) (s : LayoutWorkspace)
    → DraftIsAnchored s
    → DraftIsAnchored (archive_selected v s)
archive-keeps none s h = h
archive-keeps (some v) s h = h
