-- ===== src/Schema/Layout.antt =====
-- apps/frontend/src/schemas/{factory,layout}.ts: the inferred types.
use ev_factory_twin.Prelude.{ℕ, String, Option, List}
use ev_factory_twin.Schema.Fleet.{Number}

-- worldPointSchema, pointSchema
pub record WorldPoint : Type 0 where
  pub x : Number
  pub y : Number

-- stationTypeSchema
pub data StationType : Type 0 where
  battery_buffer marriage_station charging_station : StationType

pub data RouteKind : Type 0 where
  delivery support : RouteKind

-- factoryStationSchema, layoutStationSchema
pub record Station : Type 0 where
  pub id : String
  pub type : StationType
  pub x : Number
  pub y : Number

-- factoryRouteSchema
pub record FactoryRoute : Type 0 where
  pub id : String
  pub kind : RouteKind
  pub start_station_id : Option String
  pub end_station_id : Option String
  pub waypoints : List WorldPoint

-- noGoZoneSchema, polygonZoneSchema
pub record PolygonZone : Type 0 where
  pub id : String
  pub points : List WorldPoint

-- factoryLayoutSchema
pub record FactoryLayout : Type 0 where
  pub id : String
  pub name : String
  pub version : ℕ
  pub width : Number
  pub height : Number
  pub stations : List Station
  pub routes : List FactoryRoute
  pub no_go_zones : List PolygonZone

-- layoutRouteSchema
pub record LayoutRoute : Type 0 where
  pub id : String
  pub kind : RouteKind
  pub start_station_id : String
  pub end_station_id : String
  pub waypoints : List WorldPoint

-- congestionZoneSchema
pub record CongestionZone : Type 0 where
  pub id : String
  pub points : List WorldPoint
  pub delay_multiplier : Number

-- layoutRuntimeConfigSchema
pub record LayoutRuntimeConfig : Type 0 where
  pub robot_count : Number
  pub demand_interval_seconds : Number
  pub robot_speed_mps : Number
  pub charger_count : Number

-- layoutVersionContentSchema
pub record LayoutVersionContent : Type 0 where
  pub width : Number
  pub height : Number
  pub stations : List Station
  pub routes : List LayoutRoute
  pub no_go_zones : List PolygonZone
  pub congestion_zones : List CongestionZone
  pub config : LayoutRuntimeConfig

-- layoutVersionSchema
pub record LayoutVersion : Type 0 where
  pub content : LayoutVersionContent
  pub layout_id : String
  pub name : String
  pub version : ℕ
  pub created_by : String
  pub created_at : String
  pub archived_at : Option String

-- layoutSummarySchema
pub record LayoutSummary : Type 0 where
  pub id : String
  pub name : String
  pub latest_version : ℕ
  pub created_by : String
  pub created_at : String
  pub archived_at : Option String
