-- ===== src/Prelude/Text.antt =====
-- What JavaScript does with a text: its length in UTF-16 units, and `trim`.
use Prim.Native.Char.{code}
use Prim.Native.Nat.{ℕ, ◌+◌}
use Prim.Native.String.{String}
use mathlib.Core.Bool.{Bool, true, false, ◌&&◌, ◌||◌}
use ev_factory_twin.Prelude.Tests.{leb, beq, if◌then◌else◌}

abbrev pub utf16_length : String → ℕ
utf16_length String.[] = 0
utf16_length (String.◌∷◌ c s) = (if leb 0x10000 (code c) then 2 else 1) + utf16_length s

abbrev pub is_empty : String → Bool
is_empty String.[] = true
is_empty (String.◌∷◌ c s) = false

-- White space and line ends, as ECMAScript lists them.
abbrev pub is_space : ℕ → Bool
is_space c =
    leb 9 c && leb c 13
    || (beq c 32
        || (beq c 0xA0
            || (beq c 0x1680
                || (leb 0x2000 c && leb c 0x200A
                    || (beq c 0x2028
                        || (beq c 0x2029
                            || (beq c 0x202F
                                || (beq c 0x205F || (beq c 0x3000 || beq c 0xFEFF)))))))))

unfoldable pub trim_start : String → String
trim_start String.[] = String.[]
trim_start (String.◌∷◌ c s) =
    let rest = trim_start s in if is_space (code c) then rest else String.◌∷◌ c s

unfoldable pub trim_end : String → String
trim_end String.[] = String.[]
trim_end (String.◌∷◌ c s) =
    let rest = trim_end s in
    if is_empty rest && is_space (code c) then String.[] else String.◌∷◌ c rest

unfoldable pub trim : String → String
unfolding trim_start trim_end
trim s = trim_end (trim_start s)
