-- ===== src/ScenarioWorkspace/Defaults.antt =====
-- What the form of scenario-run-form.tsx offers for a layout, against what the request schema accepts.
use ev_factory_twin.Prelude.{
  ℕ, ◌≡◌, refl, ◌∙◌, arith, Bool, true, ◌&&◌, none, some, List, [], ◌∷◌, ◌++◌, append-nil, leb,
  every, find,
}
use ev_factory_twin.Prelude.Int.{pos, leb_ℤ}
use ev_factory_twin.Prelude.Text.{utf16_length, trim}
use ev_factory_twin.Schema.Fleet.{Number}
use ev_factory_twin.Schema.Layout.{LayoutRoute, LayoutVersion, LayoutRuntimeConfig}
use ev_factory_twin.Schema.Content.{
  is_valid_content, is_valid_route, is_valid_config, is_identifier, has_length, is_in_range,
  is_whole, is_positive_to,
}
use ev_factory_twin.Schema.Request.{
  RequestField, num_robots_field, task_arrival_interval_field, layout_id_field,
  layout_version_field, route_id_field, robot_speed_mps_field, charger_count_field, issue, is_count,
  request_issues,
}
use ev_factory_twin.ScenarioWorkspace.Form.{
  scenario_defaults, is_delivery, clamped_interval, whole, first_delivery,
}

no_issue :
    (f : RequestField) (b : Bool) (fields : List RequestField)
    → b ≡ true
    → issue f b ++ fields ≡ fields
no_issue f b fields h = rw h refl

one_issue :
    (f : RequestField) (a b : Bool) (fields : List RequestField)
    → a ≡ b
    → fields ≡ []
    → issue f a ++ fields ≡ issue f b
one_issue f a b fields same none_else = rw (same, none_else) (append-nil (issue f b))

clamped-is_in_range : (n : Number) → is_in_range 1000 60000 (clamped_interval n) ≡ true
clamped-is_in_range n = ground arith

whole-is_version :
    (n : ℕ) → leb 1 n ≡ true → (is_whole (whole n) && leb_ℤ (pos 1000) (whole n)) ≡ true
whole-is_version n h = ground arith

find-every {ℓ} :
    {A : Type ℓ} (p q : A → Bool) (xs : List A) (x : A)
    → every p xs ≡ true
    → find q xs ≡ some x
    → p x ≡ true
find-every p q [] x h e = cc
find-every p q (y ∷ xs) x h e = ground (arith, find-every p q xs x)

valid-config :
    (v : LayoutVersion)
    → is_valid_content v.content ≡ true
    → is_valid_config v.content.config ≡ true
unfolding is_valid_content
valid-config v h = ground arith

valid-routes :
    (v : LayoutVersion)
    → is_valid_content v.content ≡ true
    → every is_valid_route v.content.routes ≡ true
unfolding is_valid_content
valid-routes v h = ground arith

config-robots :
    (c : LayoutRuntimeConfig)
    → is_valid_config c ≡ true
    → is_count 10000 c.robot_count ≡ leb_ℤ c.robot_count (pos 10000)
unfolding is_valid_config
config-robots c h = ground arith

config-speed :
    (c : LayoutRuntimeConfig)
    → is_valid_config c ≡ true
    → is_positive_to 10000 c.robot_speed_mps ≡ true
unfolding is_valid_config
config-speed c h = ground arith

config-chargers :
    (c : LayoutRuntimeConfig) → is_valid_config c ≡ true → is_count 20000 c.charger_count ≡ true
unfolding is_valid_config
config-chargers c h = ground arith

route-length :
    (r : LayoutRoute) → is_valid_route r ≡ true → has_length 1 80 (utf16_length r.id) ≡ true
unfolding is_valid_route is_identifier
route-length r h = ground arith

-- For a layout version that its schema accepts, with a delivery route and an identifier of at most 80
-- units, what the form offers is accepted with one exception: the number of robots is refused just if the
-- layout has more than ten.
pub defaults_issues :
    (v : LayoutVersion) (r : LayoutRoute)
    → is_valid_content v.content ≡ true
    → find (λ (s : LayoutRoute). is_delivery s.kind) v.content.routes ≡ some r
    → has_length 1 80 (utf16_length v.layout_id) ≡ true
    → leb 1 v.version ≡ true
    → request_issues (scenario_defaults (some v) none)
      ≡ issue num_robots_field (leb_ℤ v.content.config.robot_count (pos 10000))
unfolding request_issues scenario_defaults trim
defaults_issues v r valid route named numbered =
    let c = v.content.config in
    let fine = valid-config v valid in
    let route_fine : has_length 1 80 (utf16_length (first_delivery "" v.content.routes)) ≡ true =
      rw route (
        route-length r (
          find-every is_valid_route (λ (s : LayoutRoute). is_delivery s.kind) v.content.routes r
            (valid-routes v valid) route)) in
    one_issue num_robots_field _ _ _ (config-robots c fine) (
      no_issue task_arrival_interval_field _ _ (clamped-is_in_range c.demand_interval_seconds)
      ∙ (no_issue layout_id_field _ _ named
          ∙ (no_issue layout_version_field _ _ (whole-is_version v.version numbered)
              ∙ (no_issue route_id_field _ _ route_fine
                  ∙ (no_issue robot_speed_mps_field _ _ (config-speed c fine)
                      ∙ no_issue charger_count_field _ _ (config-chargers c fine))))))
