-- ===== src/LayoutEditor/Saving.antt =====
-- Loading and saving in app/layouts/page.tsx. An asynchronous handler is cut at each `await`: what it
-- asks of the API is an effect, and the answer is another input. `number_text` prints a number in a
-- template, and `schema_message` is the text of the error that the schema throws on a content.
use ev_factory_twin.Prelude.{
  ℕ, String, Bool, true, false, Option, none, some, List, [], ◌∷◌, if◌then◌else◌,
}
use ev_factory_twin.Schema.Layout.{LayoutRoute, LayoutVersionContent, LayoutVersion, LayoutSummary}
use ev_factory_twin.Schema.Content.{is_valid_content}
use ev_factory_twin.LayoutEditor.{
  LayoutWorkspace, Effect, gets_layouts, gets_layout, creates_layout, creates_version, renames,
  archives, toasts_success, toasts_error, Follow, after_mount, after_save, after_rename,
  after_archive, perform, notify, can_save, reset_draft,
}
use Prim.Native.String.{◌++◌ as ◌+++◌}

abbrev pub first_route_id : List LayoutRoute → String
first_route_id [] = ""
first_route_id (r ∷ rs) = r.id

-- The effect of the component: the list of layouts, then the first of them.
unfoldable pub mount : LayoutWorkspace → LayoutWorkspace
mount s = perform (gets_layouts after_mount) s

unfoldable pub load_layout : String → LayoutWorkspace → LayoutWorkspace
load_layout id s = perform (gets_layout id) (record s { busy = true; notice = none })

-- What the form sends: a new layout, or a new version of the selected one.
abbrev pub store_draft : Option LayoutVersion → LayoutWorkspace → Effect
store_draft none s = creates_layout s.name s.draft
store_draft (some v) s = creates_version v.layout_id s.draft

-- A press of `Create layout` or `Save candidate revision`.
unfoldable pub save : LayoutWorkspace → LayoutWorkspace
unfolding can_save
save s =
    if can_save s
    then perform (store_draft s.selected s) (record s { busy = true; notice = none })
    else s

unfoldable pub save_fails : String → LayoutWorkspace → LayoutWorkspace
save_fails message s =
    let text = "Unable to save layout: " +++ message in
    record (perform (toasts_error text) (notify text s)) { busy = false }

abbrev pub rename_selected : Option LayoutVersion → LayoutWorkspace → LayoutWorkspace
rename_selected none s = s
rename_selected (some v) s = perform (renames v.layout_id s.name) (record s { busy = true })

unfoldable pub rename : LayoutWorkspace → LayoutWorkspace
rename s = rename_selected s.selected s

unfoldable pub layout_renamed : LayoutVersion → LayoutWorkspace → LayoutWorkspace
layout_renamed updated s =
    perform (gets_layouts after_rename) (record s { selected = some updated })

unfoldable pub rename_fails : String → LayoutWorkspace → LayoutWorkspace
rename_fails message s = record (notify ("Unable to rename layout: " +++ message) s) {
  busy = false;
}

unfoldable pub open_archive : Bool → LayoutWorkspace → LayoutWorkspace
open_archive opened s = record s { archive_confirmation_open = opened }

abbrev pub archive_selected : Option LayoutVersion → LayoutWorkspace → LayoutWorkspace
archive_selected none s = s
archive_selected (some v) s =
    perform (archives v.layout_id) (record s { archive_confirmation_open = false; busy = true })

unfoldable pub archive : LayoutWorkspace → LayoutWorkspace
archive s = archive_selected s.selected s

unfoldable pub layout_archived : LayoutWorkspace → LayoutWorkspace
unfolding reset_draft
layout_archived s = perform (gets_layouts after_archive) (reset_draft s)

unfoldable pub archive_fails : String → LayoutWorkspace → LayoutWorkspace
archive_fails message s = record (notify ("Unable to archive layout: " +++ message) s) {
  busy = false;
}

-- What a handler does once it has the list, `refreshLayouts` having stored it.
abbrev pub continue_with : Follow → List LayoutSummary → LayoutWorkspace → LayoutWorkspace
continue_with after_mount [] s = s
continue_with after_mount (l ∷ ls) s = load_layout l.id s
continue_with (after_save text) loaded s = record (perform (toasts_success text) (notify text s)) {
  busy = false;
}
continue_with after_rename loaded s =
    record (notify "Layout metadata renamed; immutable geometry was unchanged." s) { busy = false }
continue_with after_archive loaded s =
    record (notify "Layout archived. Existing scenario references remain valid." s) { busy = false }

unfoldable pub layouts_loaded : Follow → List LayoutSummary → LayoutWorkspace → LayoutWorkspace
unfolding load_layout
layouts_loaded follow loaded s = continue_with follow loaded (record s { layouts = loaded })

unfoldable pub layouts_fail : Follow → String → LayoutWorkspace → LayoutWorkspace
unfolding save_fails rename_fails archive_fails
layouts_fail after_mount message s = notify ("Unable to load layouts: " +++ message) s
layouts_fail (after_save text) message s = save_fails message s
layouts_fail after_rename message s = rename_fails message s
layouts_fail after_archive message s = archive_fails message s

unfoldable pub load_fails : String → LayoutWorkspace → LayoutWorkspace
load_fails message s = record (notify ("Unable to load layout: " +++ message) s) { busy = false }

-- The answer to one who asked for it is selected before the schema reads it.
abbrev pub take_version : LayoutVersion → LayoutWorkspace → LayoutWorkspace
take_version v s = record s { selected = some v; name = v.name }

abbrev pub show_version : LayoutVersion → LayoutWorkspace → LayoutWorkspace
show_version v s = record (take_version v s) {
  draft = v.content;
  selected_route_id = first_route_id v.content.routes;
  route_drawing = false;
  route_draft = [];
  selected_zone = none;
  zone_drawing = none;
  busy = false;
}

module _ (number_text : ℕ → String) (schema_message : LayoutVersionContent → String) where
  unfoldable pub layout_loaded : LayoutVersion → LayoutWorkspace → LayoutWorkspace
  unfolding load_fails
  layout_loaded v s =
      if is_valid_content v.content
      then show_version v s
      else load_fails (schema_message v.content) (take_version v s)

  -- `creating_version` is what `selected` was when the save began.
  unfoldable pub layout_saved : Bool → LayoutVersion → LayoutWorkspace → LayoutWorkspace
  unfolding save_fails
  layout_saved creating_version v s =
      let text =
        if creating_version
        then "Created immutable version " +++ (number_text v.version +++ ".")
        else "Created " +++ (v.layout_id +++ ".") in
      if is_valid_content v.content
      then perform (gets_layouts (after_save text))
          (record (take_version v s) { draft = v.content })
      else save_fails (schema_message v.content) (take_version v s)
