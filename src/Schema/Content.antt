-- ===== src/Schema/Content.antt =====
-- What apps/frontend/src/schemas/layout.ts asks of a layout's content: `layoutVersionContentSchema` as a
-- test. Numbers are in thousandths, and finite as they are read from the form.
use Prim.Native.Char.{code}
use Prim.Native.String.{String}
use ev_factory_twin.Prelude.{ℕ, ◌%◌, Bool, true, false, ◌&&◌, ◌||◌, beq, leb, length, every}
use ev_factory_twin.Prelude.Text.{utf16_length}
use ev_factory_twin.Prelude.Int.{pos, pos_part, neg_part, ltb_ℤ, leb_ℤ}
use ev_factory_twin.Schema.Fleet.{Number}
use ev_factory_twin.Schema.Layout.{
  Station, LayoutRoute, PolygonZone, CongestionZone, LayoutRuntimeConfig, LayoutVersionContent,
}

abbrev pub is_upper : ℕ → Bool
is_upper c = leb b'A' c && leb c b'Z'

-- `[A-Z0-9_-]`
abbrev pub is_identifier_code : ℕ → Bool
is_identifier_code c = is_upper c || (leb b'0' c && leb c b'9' || (beq c b'_' || beq c b'-'))

abbrev pub all_codes : (ℕ → Bool) → String → Bool
all_codes p String.[] = true
all_codes p (String.◌∷◌ c s) = p (code c) && all_codes p s

-- `/^[A-Z][A-Z0-9_-]*$/`
abbrev pub matches_identifier : String → Bool
matches_identifier String.[] = false
matches_identifier (String.◌∷◌ c s) = is_upper (code c) && all_codes is_identifier_code s

abbrev pub has_length : ℕ → ℕ → ℕ → Bool
has_length least most n = leb least n && leb n most

unfoldable pub is_identifier : String → Bool
is_identifier s = has_length 1 80 (utf16_length s) && matches_identifier s

unfoldable pub is_station_reference : String → Bool
is_station_reference s = has_length 1 80 (utf16_length s)

abbrev pub is_in_range : ℕ → ℕ → Number → Bool
is_in_range least most n = leb_ℤ (pos least) n && leb_ℤ n (pos most)

-- `z.number().positive().max(most)`
abbrev pub is_positive_to : ℕ → Number → Bool
is_positive_to most n = ltb_ℤ (pos 0) n && leb_ℤ n (pos most)

abbrev pub is_whole : Number → Bool
is_whole n = beq (pos_part n % 1000) 0 && beq (neg_part n % 1000) 0

unfoldable pub is_valid_station : Station → Bool
is_valid_station s = is_identifier s.id

unfoldable pub is_valid_route : LayoutRoute → Bool
is_valid_route r =
    is_identifier r.id
    && (is_station_reference r.start_station_id
        && (is_station_reference r.end_station_id && has_length 2 200 (length r.waypoints)))

unfoldable pub is_valid_zone : PolygonZone → Bool
is_valid_zone z = is_identifier z.id && has_length 3 100 (length z.points)

unfoldable pub is_valid_congestion_zone : CongestionZone → Bool
is_valid_congestion_zone z =
    is_identifier z.id
    && (has_length 3 100 (length z.points) && is_in_range 1000 10000 z.delay_multiplier)

unfoldable pub is_valid_config : LayoutRuntimeConfig → Bool
is_valid_config c =
    is_whole c.robot_count
    && is_in_range 2000 50000 c.robot_count
    && (is_in_range 100 3600000 c.demand_interval_seconds
        && (is_positive_to 10000 c.robot_speed_mps
            && (is_whole c.charger_count && is_in_range 1000 20000 c.charger_count)))

unfoldable pub is_valid_content : LayoutVersionContent → Bool
is_valid_content c =
    is_positive_to 10000000 c.width
    && (is_positive_to 10000000 c.height
        && (has_length 3 200 (length c.stations)
            && every is_valid_station c.stations
            && (has_length 1 200 (length c.routes)
                && every is_valid_route c.routes
                && (leb (length c.no_go_zones) 100
                    && every is_valid_zone c.no_go_zones
                    && (leb (length c.congestion_zones) 100
                        && every is_valid_congestion_zone c.congestion_zones
                        && is_valid_config c.config)))))
