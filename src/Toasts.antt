-- ===== src/Toasts.antt =====
-- apps/frontend/src/stores/toast-store.ts: the messages on the screen. `number_text` prints a number in
-- a template; the module's counter is part of the state.
use ev_factory_twin.Prelude.{
  ℕ, ◌+◌, ◌≤◌, ◌≡◌, refl, arith, String, not, List, [], ◌∷◌, ◌==◌, length, filter, slice_last,
  length-slice_last, length-filter-le, All, All-append, All-drop, All-filter, All-map_of,
}
use mathlib.Core.List.{◌++◌}
use Prim.Native.String.{◌++◌ as ◌+++◌}

pub data ToastType : Type 0 where
  success error info : ToastType

pub record Toast : Type 0 where
  pub id : String
  pub type : ToastType
  pub message : String

pub record ToastStore : Type 0 where
  pub counter : ℕ
  pub toasts : List Toast

unfoldable pub remove_toast : String → ToastStore → ToastStore
remove_toast id s = record s { toasts = filter (λ t. not (t.id == id)) s.toasts }

-- In milliseconds; 0 is never.
abbrev pub auto_dismiss_ms : ToastType → ℕ
auto_dismiss_ms success = 4000
auto_dismiss_ms info = 4000
auto_dismiss_ms error = 0

pub data Action : Type 0 where
  adds : ToastType → String → Action
  removes : String → Action

module _ (number_text : ℕ → String) where
  abbrev pub toast_id : ℕ → String
  toast_id n = "t-" +++ number_text n

  unfoldable pub add_toast : ToastType → String → ToastStore → ToastStore
  add_toast type message s =
      let id = toast_id (s.counter + 1) in
      record {
        counter = s.counter + 1;
        toasts = slice_last 3 (s.toasts ++ record { id = id; type = type; message = message } ∷ []);
      }

  unfoldable pub toast_success : String → ToastStore → ToastStore
  unfolding add_toast
  toast_success message s = add_toast success message s

  unfoldable pub toast_error : String → ToastStore → ToastStore
  unfolding add_toast
  toast_error message s = add_toast error message s

  unfoldable pub toast_info : String → ToastStore → ToastStore
  unfolding add_toast
  toast_info message s = add_toast info message s

  unfoldable pub step : Action → ToastStore → ToastStore
  step (adds type message) s = add_toast type message s
  step (removes id) s = remove_toast id s

  unfoldable pub run : List Action → ToastStore → ToastStore
  run [] s = s
  run (a ∷ actions) s = run actions (step a s)

  -- The toast has the id of a number counted so far.
  abbrev pub IsCounted : ℕ → Toast → Type 0
  IsCounted n t = (k : ℕ) × (k ≤ n) × (t.id ≡ toast_id k)

  -- At most three toasts are shown, and each has an id that was counted.
  abbrev pub IsShown : ToastStore → Type 0
  IsShown s = (length s.toasts ≤ 3) × All (IsCounted s.counter) s.toasts

  step-IsShown : (a : Action) (s : ToastStore) → IsShown s → IsShown (step a s)
  unfolding step add_toast remove_toast
  step-IsShown (adds type message) s (few, counted) =
      let toast : Toast = record {
        id = toast_id (s.counter + 1);
        type = type;
        message = message;
      } in
      (
        length-slice_last 3 (s.toasts ++ toast ∷ []),
        All-drop (IsCounted (s.counter + 1)) _ (s.toasts ++ toast ∷ []) (
            All-append _ s.toasts (toast ∷ [])
              (All-map_of s.toasts (λ t c. (c.0, omega (arith, c.1), c.2)) counted)
              ((s.counter + 1, omega arith, refl), tt)),
      )
  step-IsShown (removes id) s (few, counted) = (
    omega (arith, length-filter-le (λ (t : Toast). not (t.id == id)) s.toasts),
    All-filter (IsCounted s.counter) _ s.toasts counted,
  )

  -- Whatever is added and removed, at most three toasts are shown, and every id is one that was counted,
  -- if that was so at the start.
  pub run-IsShown : (actions : List Action) (s : ToastStore) → IsShown s → IsShown (run actions s)
  unfolding run
  run-IsShown [] s h = h
  run-IsShown (a ∷ actions) s h = run-IsShown actions (step a s) (step-IsShown a s h)
