-- ===== src/Permissions.antt =====
-- apps/frontend/src/lib/auth/permissions.ts: what each role may do.
use ev_factory_twin.Prelude.{
  ◌≡◌, refl, Bool, true, false, ◌&&◌, ◌||◌, Option, none, some, List, [], ◌∷◌, any,
}
use ev_factory_twin.Schema.Fleet.{AppRole, designer, monitor}

pub data Permission : Type 0 where
  operations_view scenarios_view scenarios_run scenarios_review scenarios_apply : Permission
  factory_control layout_view layout_edit commands_view commands_retry : Permission

abbrev pub role_permissions : AppRole → List Permission
role_permissions designer =
    operations_view ∷ scenarios_view ∷ scenarios_run ∷ layout_view ∷ layout_edit ∷ commands_view
    ∷ []
role_permissions monitor =
    operations_view ∷ scenarios_view ∷ scenarios_review ∷ scenarios_apply ∷ factory_control
    ∷ layout_view ∷ commands_view ∷ commands_retry ∷ []

abbrev pub same_permission : Permission → Permission → Bool
same_permission operations_view operations_view = true
same_permission scenarios_view scenarios_view = true
same_permission scenarios_run scenarios_run = true
same_permission scenarios_review scenarios_review = true
same_permission scenarios_apply scenarios_apply = true
same_permission factory_control factory_control = true
same_permission layout_view layout_view = true
same_permission layout_edit layout_edit = true
same_permission commands_view commands_view = true
same_permission commands_retry commands_retry = true
same_permission _ _ = false

unfoldable pub can : Option AppRole → Permission → Bool
can none permission = false
can (some role) permission = any (same_permission permission) (role_permissions role)

-- Whoever may run scenarios or edit layouts may neither review nor apply them, nor control the factory.
pub duties_are_separate :
    (role : Option AppRole)
    → ((can role scenarios_run || can role layout_edit)
        && (can role scenarios_review || (can role scenarios_apply || can role factory_control)))
      ≡ false
unfolding can
duties_are_separate none = refl
duties_are_separate (some designer) = refl
duties_are_separate (some monitor) = refl
