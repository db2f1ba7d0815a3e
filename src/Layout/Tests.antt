-- ===== src/Layout/Tests.antt =====
-- Tests of the model of lib/factory-layout.ts and lib/layout-projection.ts.
use ev_factory_twin.Prelude.{◌≡◌, refl, none, some, [], ◌∷◌, All}
use ev_factory_twin.Prelude.Int.{pos}
use ev_factory_twin.Schema.Layout.{FactoryLayout, LayoutVersion}
use ev_factory_twin.Prelude.Text.{trim}
use ev_factory_twin.Schema.Factory.{has_valid_fields}
use ev_factory_twin.Layout.{
  default_factory_layout, layout_issues, layout_points, point, metres, project_layout_version,
}
use ev_factory_twin.Layout.Extent.{IsOnFloor, projected-IsOnFloor}
use ev_factory_twin.Layout.Live
use ev_factory_twin.Layout.Live.{AppliedLayout}

-- The schema accepts the default layout.
default_accepted : layout_issues default_factory_layout ≡ []
unfolding layout_issues
default_accepted = refl

abbrev version : LayoutVersion
version = record {
  content = record {
    width = metres 10;
    height = metres 10;
    stations = [];
    routes = [];
    no_go_zones = record { id = "Z"; points = point 1 1 ∷ point 9 1 ∷ point 1 9 ∷ [] } ∷ [];
    congestion_zones = [];
    config = record {
      robot_count = pos 1000;
      demand_interval_seconds = metres 1;
      robot_speed_mps = metres 1;
      charger_count = pos 1000;
    };
  };
  layout_id = "L-1";
  name = "Small";
  version = 1;
  created_by = "U-1";
  created_at = "1";
  archived_at = none;
}

abbrev projected : FactoryLayout
projected = record {
  id = "L-1";
  name = "Small";
  version = 1;
  width = metres 10;
  height = metres 10;
  stations = [];
  routes = [];
  no_go_zones = record { id = "Z"; points = point 1 1 ∷ point 9 1 ∷ point 1 9 ∷ [] } ∷ [];
}

projected-IsOnFloor_example : All (IsOnFloor projected) (layout_points projected)
unfolding project_layout_version layout_issues has_valid_fields trim
projected-IsOnFloor_example = projected-IsOnFloor version projected refl

-- A layout whose name is blank is refused.
blank_name_refused : project_layout_version (record version { name = " " }) ≡ none
unfolding project_layout_version has_valid_fields trim
blank_name_refused = refl

-- The revision changes again before the first load has answered; its version comes last of all.
abbrev reloading : AppliedLayout
reloading = record Live.initial { loads = 1; active_load = some 1 }
