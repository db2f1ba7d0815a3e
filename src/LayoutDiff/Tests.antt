-- ===== src/LayoutDiff/Tests.antt =====
-- Tests of the model of lib/layout-diff.ts.
use ev_factory_twin.Prelude.{ℕ, ◌+◌, ◌≡◌, refl, arith, String, [], ◌∷◌}
use ev_factory_twin.Prelude.Int.{eq_of_parts, pos, pos_part, neg_part}
use ev_factory_twin.Schema.Fleet.{Number}
use ev_factory_twin.Schema.Layout.{
  Station, WorldPoint, battery_buffer, marriage_station, delivery, LayoutVersionContent,
}
use ev_factory_twin.LayoutDiff.Unchanged.{retyping_unreported}
use ev_factory_twin.LayoutDiff.Reported.{IsUnmoved, IsUnrouted, AreKept, nothing_reported}
use ev_factory_twin.Prelude.{All}

-- A distance that is 0 only at 0.
abbrev taxicab : Number → Number → ℕ
taxicab x y = pos_part x + neg_part x + (pos_part y + neg_part y)

taxicab_zero : (x y : Number) → taxicab x y ≡ 0 → (x ≡ pos 0) × (y ≡ pos 0)
taxicab_zero x y h = (eq_of_parts x (pos 0) (ground arith), eq_of_parts y (pos 0) (ground arith))

abbrev some_text : Number → String
some_text n = "n"

abbrev point : ℕ → ℕ → WorldPoint
point x y = record { x = pos x; y = pos y }

abbrev content : LayoutVersionContent
content = record {
  width = pos 120000;
  height = pos 40000;
  stations =
      record { id = "B"; type = battery_buffer; x = pos 1000; y = pos 2000 }
      ∷ record { id = "M"; type = marriage_station; x = pos 5000; y = pos 2000 }
      ∷ [];
  routes =
      record {
        id = "R";
        kind = delivery;
        start_station_id = "B";
        end_station_id = "M";
        waypoints = point 1000 2000 ∷ point 5000 2000 ∷ [];
      }
      ∷ [];
  no_go_zones = record { id = "Z"; points = point 0 0 ∷ point 1 0 ∷ point 0 1 ∷ [] } ∷ [];
  congestion_zones =
      record {
        id = "C";
        points = point 0 0 ∷ point 1 0 ∷ point 0 1 ∷ [];
        delay_multiplier = pos 2000;
      }
      ∷ [];
  config = record {
    robot_count = pos 3000;
    demand_interval_seconds = pos 10000;
    robot_speed_mps = pos 1000;
    charger_count = pos 1000;
  };
}

nothing_reported_example :
    ((content.width ≡ content.width) × (content.height ≡ content.height))
    × (All (IsUnmoved content.stations) content.stations
        × AreKept (λ (s : Station). s.id) content.stations content.stations)
    × (All (IsUnrouted content.routes) content.routes
        × AreKept (λ r. r.id) content.routes content.routes)
nothing_reported_example = nothing_reported taxicab some_text taxicab_zero content content (
    retyping_unreported taxicab some_text (λ s. s.type) (λ r. r.kind) content refl
      (((refl, tt), (tt, tt)), (tt, tt), (tt, tt), (tt, tt)))
