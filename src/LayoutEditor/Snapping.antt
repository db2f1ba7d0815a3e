-- ===== src/LayoutEditor/Snapping.antt =====
-- The grid of the layout editor in app/layouts/page.tsx.
use ev_factory_twin.Prelude.{◌%◌, ◌≡◌, arith}
use ev_factory_twin.Prelude.Int.{pos, negsuc, pos_part, neg_part, ◌+ℤ◌, ◌≤ℤ◌, +ℤ_parts}
use ev_factory_twin.Schema.Fleet.{Number}
use ev_factory_twin.Schema.Layout.{LayoutVersionContent}
use ev_factory_twin.LayoutEditor.{Axis, number_value}
use ev_factory_twin.LayoutEditor.Zones.{snap_to_footprint, axis_limit}

abbrev pub IsOnGrid : Number → Type 0
IsOnGrid n = (pos_part n % 500 ≡ 0) × (neg_part n % 500 ≡ 0)

-- A typed number is put on a point of the half metre grid that is at most a quarter of a metre above it
-- and less than a quarter of a metre below it: the nearest, and the greater of two.
pub number_value_nearest :
    (n : Number)
    → IsOnGrid (number_value n)
      × (number_value n ≤ℤ n +ℤ pos 250)
      × (n +ℤ pos 1 ≤ℤ number_value n +ℤ pos 250)
unfolding number_value
number_value_nearest (pos n) = ground (
  arith,
  +ℤ_parts (pos n) (pos 250),
  +ℤ_parts (pos n) (pos 1),
  +ℤ_parts (number_value (pos n)) (pos 250),
)
number_value_nearest (negsuc n) = ground (
  arith,
  +ℤ_parts (negsuc n) (pos 250),
  +ℤ_parts (negsuc n) (pos 1),
  +ℤ_parts (number_value (negsuc n)) (pos 250),
)

-- A corner that is typed lies in the footprint, on that axis.
pub snap_to_footprint_within :
    (axis : Axis) (value : Number) (c : LayoutVersionContent)
    → pos 0 ≤ℤ axis_limit axis c
    → (pos 0 ≤ℤ snap_to_footprint axis value c)
      × (snap_to_footprint axis value c ≤ℤ axis_limit axis c)
unfolding snap_to_footprint
snap_to_footprint_within axis value c h = ground arith
