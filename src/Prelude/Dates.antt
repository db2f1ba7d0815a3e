-- ===== src/Prelude/Dates.antt =====
-- `Date.parse`: milliseconds, or NaN (`none`), which is neither above nor below anything. How a text
-- is read is the engine's business, so `date_parse` is a parameter wherever it is used.
use Prim.Native.Nat.{ℕ}
use mathlib.Core.Path.{◌≡◌}
use mathlib.Core.Bool.{Bool, true, false}
use mathlib.Core.Logic.{◌≢◌}
use mathlib.Core.Option.{Option, none, some}
use native.Mathlib.Omega.{arith}
use ev_factory_twin.Prelude.Tests.{ltb}

-- `a > b`, and `a - b > 0`
abbrev pub later : Option ℕ → Option ℕ → Bool
later (some a) (some b) = ltb b a
later (some a) none = false
later none b = false

pub later_asym : (a b : Option ℕ) → later a b ≡ true → later b a ≡ false
later_asym (some a) (some b) h = ground arith
later_asym (some a) none h = ground arith
later_asym none b h = ground arith

-- Among proper dates "not later" is transitive.
pub later_chain :
    (a b c : Option ℕ)
    → a ≢ none
    → b ≢ none
    → c ≢ none
    → later a b ≡ false
    → later b c ≡ false
    → later a c ≡ false
later_chain (some a) (some b) (some c) pa pb pc h k = ground arith
later_chain none b c pa pb pc h k = ground arith
later_chain (some a) none c pa pb pc h k = ground arith
later_chain (some a) (some b) none pa pb pc h k = ground arith
