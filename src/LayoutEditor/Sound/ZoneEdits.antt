-- ===== src/LayoutEditor/Sound/ZoneEdits.antt =====
-- The edits of zones in app/layouts/page.tsx, against the invariant.
use ev_factory_twin.Prelude.{ℕ, arith, String, Option, none, some, List, Option-cases, inl, inr}
use ev_factory_twin.Prelude.Index.{length-drop_last}
use ev_factory_twin.Schema.Fleet.{Number}
use ev_factory_twin.Schema.Layout.{WorldPoint, LayoutVersionContent}
use ev_factory_twin.LayoutEditor.{
  LayoutWorkspace, ZoneDrawing, ZoneKind, no_go_zones, congestion_zones, Axis,
}
use ev_factory_twin.LayoutEditor.Zones.{
  start_zone_drawing, undo_zone_point, finish_drawing, insert_zone, rename_zone, set_delay,
  set_corner, delete_zone,
}
use ev_factory_twin.LayoutEditor.Sound.{HasRoutes, IsTidy}

pub start_zone_drawing-IsTidy :
    (number_text : ℕ → String) (kind : ZoneKind) {s : LayoutWorkspace}
    → IsTidy s
    → IsTidy (start_zone_drawing number_text kind s)
unfolding start_zone_drawing
start_zone_drawing-IsTidy number_text kind h = ground arith

pub undo_zone_point-IsTidy : {s : LayoutWorkspace} → IsTidy s → IsTidy (undo_zone_point s)
unfolding undo_zone_point
undo_zone_point-IsTidy {s} h = elim (Option-cases s.zone_drawing) [
  | inl undrawn ↦ ground arith
  | inr (d, drawn) ↦ ground (arith, length-drop_last d.points)
]

-- What is done to the zones leaves the routes as they are.
pub insert_zone-HasRoutes :
    (kind : ZoneKind) (id : String) (points : List WorldPoint) (c : LayoutVersionContent)
    → HasRoutes c
    → HasRoutes (insert_zone kind id points c)
insert_zone-HasRoutes no_go_zones id points c h = ground arith
insert_zone-HasRoutes congestion_zones id points c h = ground arith

pub finish_drawing-IsTidy :
    (d : Option ZoneDrawing) {s : LayoutWorkspace} → IsTidy s → IsTidy (finish_drawing d s)
finish_drawing-IsTidy none h = h
finish_drawing-IsTidy (some d) {s} h =
    ground (arith, insert_zone-HasRoutes d.kind d.id d.points s.draft h.routes)

pub rename_zone-HasRoutes :
    (kind : ZoneKind) (index : ℕ) (id : String) (c : LayoutVersionContent)
    → HasRoutes c
    → HasRoutes (rename_zone kind index id c)
rename_zone-HasRoutes no_go_zones index id c h = ground arith
rename_zone-HasRoutes congestion_zones index id c h = ground arith

pub set_delay-HasRoutes :
    (kind : ZoneKind) (index : ℕ) (value : Number) (c : LayoutVersionContent)
    → HasRoutes c
    → HasRoutes (set_delay kind index value c)
set_delay-HasRoutes no_go_zones index value c h = h
set_delay-HasRoutes congestion_zones index value c h = ground arith

pub set_corner-HasRoutes :
    (kind : ZoneKind) (index j : ℕ) (axis : Axis) (value : Number) (c : LayoutVersionContent)
    → HasRoutes c
    → HasRoutes (set_corner kind index j axis value c)
set_corner-HasRoutes no_go_zones index j axis value c h = ground arith
set_corner-HasRoutes congestion_zones index j axis value c h = ground arith

pub delete_zone-HasRoutes :
    (kind : ZoneKind) (index : ℕ) (c : LayoutVersionContent)
    → HasRoutes c
    → HasRoutes (delete_zone kind index c)
delete_zone-HasRoutes no_go_zones index c h = ground arith
delete_zone-HasRoutes congestion_zones index c h = ground arith
