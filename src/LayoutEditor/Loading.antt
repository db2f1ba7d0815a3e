-- ===== src/LayoutEditor/Loading.antt =====
-- Answers that overtake each other in app/layouts/page.tsx.
use ev_factory_twin.Prelude.{ℕ, ◌≡◌, arith, String, true, false, some, [], ◌∷◌}
use ev_factory_twin.Schema.Layout.{LayoutVersionContent, LayoutVersion}
use ev_factory_twin.Schema.Content.{is_valid_content}
use ev_factory_twin.LayoutEditor.{LayoutWorkspace}
use ev_factory_twin.LayoutEditor.Saving.{layout_loaded}
use ev_factory_twin.LayoutEditor.Inputs.{clicks_layout, gets_version, step, run}

-- The editor holds this version, and waits for nothing.
abbrev pub IsShowing : LayoutVersion → LayoutWorkspace → Type 0
IsShowing v s = (s.selected ≡ some v) × (s.draft ≡ v.content) × (s.name ≡ v.name) × (s.busy ≡ false)

module _ (number_text : ℕ → String) (schema_message : LayoutVersionContent → String) where
  loaded-IsShowing :
      (v : LayoutVersion) (s : LayoutWorkspace)
      → is_valid_content v.content ≡ true
      → IsShowing v (layout_loaded number_text schema_message v s)
  unfolding layout_loaded
  loaded-IsShowing v s valid = ground arith

  -- If the user asks for one layout and then for another, and the answers come in the other order, the
  -- editor shows the one that was asked for first, if the schema accepts it.
  pub overtaken_load_shown :
      (first second : LayoutVersion) (s : LayoutWorkspace)
      → is_valid_content first.content ≡ true
      → IsShowing first (
          run number_text schema_message
            (clicks_layout first.layout_id
              ∷ clicks_layout second.layout_id
              ∷ gets_version second
              ∷ gets_version first
              ∷ [])
            s)
  unfolding run step
  overtaken_load_shown first second s valid = loaded-IsShowing first _ valid
