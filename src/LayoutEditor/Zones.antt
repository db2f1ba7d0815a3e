-- ===== src/LayoutEditor/Zones.antt =====
-- The zones in app/layouts/page.tsx, with what components/layout/layout-zone-editor.tsx lets the user do.
-- `number_text` prints a number in a template.
use ev_factory_twin.Prelude.{
  ℕ, ◌+◌, String, Bool, Option, none, some, List, [], ◌∷◌, ◌++◌, ◌==◌, any, ltb, if◌then◌else◌,
  length,
}
use ev_factory_twin.Prelude.Index.{get_elem?, map_at, remove_at, drop_last}
use ev_factory_twin.Prelude.Int.{pos, min_ℤ, max_ℤ}
use ev_factory_twin.Schema.Fleet.{Number}
use ev_factory_twin.Schema.Layout.{WorldPoint, PolygonZone, CongestionZone, LayoutVersionContent}
use ev_factory_twin.LayoutEditor.{
  LayoutWorkspace, ZoneKind, no_go_zones, congestion_zones, ZoneSelection, ZoneDrawing, Axis,
  x_axis, y_axis, on_draft, notify, fresh_suffix, number_value, set_axis, all_zones,
}
use ev_factory_twin.LayoutEditor.Routes.{numbered, stop_drawing}
use mathlib.Core.Option
use Prim.Native.String.{◌++◌ as ◌+++◌}

abbrev pub zone_prefix : ZoneKind → String
zone_prefix no_go_zones = "NO_GO_ZONE"
zone_prefix congestion_zones = "CONGESTION_ZONE"

abbrev pub has_zone : LayoutVersionContent → String → Bool
has_zone c id = any (λ (z : PolygonZone). z.id == id) (all_zones c)

module _ (number_text : ℕ → String) where
  -- The loop asks for each number at most once more than there are zones.
  unfoldable pub new_zone_id : ZoneKind → LayoutVersionContent → String
  unfolding fresh_suffix
  new_zone_id kind c =
      let label = numbered number_text (zone_prefix kind) in
      label (fresh_suffix (has_zone c) label (length (all_zones c) + 1) 1)

  unfoldable pub start_zone_drawing : ZoneKind → LayoutWorkspace → LayoutWorkspace
  start_zone_drawing kind s = record (stop_drawing s) {
    selected_zone = none;
    zone_drawing = some (record { kind = kind; id = new_zone_id kind s.draft; points = [] });
    notice = none;
  }

abbrev pub place_corner : WorldPoint → Option ZoneDrawing → Option ZoneDrawing
place_corner p none = none
place_corner p (some d) =
    some (if ltb (length d.points) 100 then record d { points = d.points ++ p ∷ [] } else d)

unfoldable pub add_zone_point : WorldPoint → LayoutWorkspace → LayoutWorkspace
add_zone_point p s = record s { zone_drawing = place_corner p s.zone_drawing }

abbrev pub take_back : Option ZoneDrawing → Option ZoneDrawing
take_back none = none
take_back (some d) = some (record d { points = drop_last d.points })

unfoldable pub undo_zone_point : LayoutWorkspace → LayoutWorkspace
undo_zone_point s = record s { zone_drawing = take_back s.zone_drawing }

unfoldable pub cancel_zone_drawing : LayoutWorkspace → LayoutWorkspace
cancel_zone_drawing s = record s { zone_drawing = none }

-- `draft[kind].length`
abbrev pub zone_count : ZoneKind → LayoutVersionContent → ℕ
zone_count no_go_zones c = length c.no_go_zones
zone_count congestion_zones c = length c.congestion_zones

abbrev pub insert_zone :
    ZoneKind → String → List WorldPoint → LayoutVersionContent → LayoutVersionContent
insert_zone no_go_zones id points c = record c {
  no_go_zones = c.no_go_zones ++ record { id = id; points = points } ∷ [];
}
insert_zone congestion_zones id points c = record c {
  congestion_zones =
      c.congestion_zones ++ record { id = id; points = points; delay_multiplier = pos 1250 } ∷ [];
}

abbrev pub finish_drawing : Option ZoneDrawing → LayoutWorkspace → LayoutWorkspace
finish_drawing none s = s
finish_drawing (some d) s =
    if ltb (length d.points) 3
    then s
    else notify (d.id +++ " added to the candidate layout.")
        (record (on_draft (insert_zone d.kind d.id d.points) s) {
          selected_zone = some (record { kind = d.kind; index = zone_count d.kind s.draft });
          zone_drawing = none;
        })

unfoldable pub finish_zone_drawing : LayoutWorkspace → LayoutWorkspace
finish_zone_drawing s = finish_drawing s.zone_drawing s

abbrev pub rename_zone : ZoneKind → ℕ → String → LayoutVersionContent → LayoutVersionContent
rename_zone no_go_zones index id c = record c {
  no_go_zones = map_at index (λ (z : PolygonZone). record z { id = id }) c.no_go_zones;
}
rename_zone congestion_zones index id c = record c {
  congestion_zones = map_at index (λ (z : CongestionZone). record z { id = id }) c.congestion_zones;
}

unfoldable pub update_zone_id : ZoneSelection → String → LayoutWorkspace → LayoutWorkspace
update_zone_id selection id s = on_draft (rename_zone selection.kind selection.index id) s

abbrev pub set_delay : ZoneKind → ℕ → Number → LayoutVersionContent → LayoutVersionContent
set_delay no_go_zones index value c = c
set_delay congestion_zones index value c = record c {
  congestion_zones =
      map_at index (λ (z : CongestionZone). record z { delay_multiplier = value })
        c.congestion_zones;
}

unfoldable pub update_zone_delay : ZoneSelection → Number → LayoutWorkspace → LayoutWorkspace
update_zone_delay selection value s = on_draft (set_delay selection.kind selection.index value) s

-- `field === "x" ? draft.width : draft.height`
abbrev pub axis_limit : Axis → LayoutVersionContent → Number
axis_limit x_axis c = c.width
axis_limit y_axis c = c.height

unfoldable pub snap_to_footprint : Axis → Number → LayoutVersionContent → Number
unfolding number_value
snap_to_footprint axis value c = min_ℤ (axis_limit axis c) (max_ℤ (pos 0) (number_value value))

abbrev pub set_corner :
    ZoneKind → ℕ → ℕ → Axis → Number → LayoutVersionContent → LayoutVersionContent
set_corner no_go_zones index point_index axis value c = record c {
  no_go_zones =
      map_at index
        (λ (z : PolygonZone). record z {
          points = map_at point_index (set_axis axis value) z.points;
        })
        c.no_go_zones;
}
set_corner congestion_zones index point_index axis value c = record c {
  congestion_zones =
      map_at index
        (λ (z : CongestionZone). record z {
          points = map_at point_index (set_axis axis value) z.points;
        })
        c.congestion_zones;
}

unfoldable pub update_zone_point :
    ZoneSelection → ℕ → Axis → Number → LayoutWorkspace → LayoutWorkspace
unfolding snap_to_footprint
update_zone_point selection point_index axis value s =
    on_draft
      (set_corner selection.kind selection.index point_index axis
        (snap_to_footprint axis value s.draft))
      s

-- `draft[kind][index]?.id`
abbrev pub zone_id_at : ZoneKind → ℕ → LayoutVersionContent → Option String
zone_id_at no_go_zones index c =
    Option.map (λ (z : PolygonZone). z.id) (get_elem? c.no_go_zones index)
zone_id_at congestion_zones index c =
    Option.map (λ (z : CongestionZone). z.id) (get_elem? c.congestion_zones index)

abbrev pub delete_zone : ZoneKind → ℕ → LayoutVersionContent → LayoutVersionContent
delete_zone no_go_zones index c = record c { no_go_zones = remove_at index c.no_go_zones }
delete_zone congestion_zones index c = record c {
  congestion_zones = remove_at index c.congestion_zones;
}

unfoldable pub remove_zone : ZoneSelection → LayoutWorkspace → LayoutWorkspace
remove_zone selection s = record (on_draft (delete_zone selection.kind selection.index) s) {
  selected_zone = none;
  notice =
      Option.map (λ id. id +++ " removed from the candidate layout.")
        (zone_id_at selection.kind selection.index s.draft);
}

unfoldable pub select_zone : ZoneSelection → LayoutWorkspace → LayoutWorkspace
select_zone selection s = record s { selected_zone = some selection }
