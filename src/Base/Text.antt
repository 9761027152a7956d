-- ===== src/Base/Text.antt =====
-- `String.prototype.trim` and what the program asks of its result.
use Prim.Native.Nat.{ℕ}
use Prim.Native.Char.{Char, code}
use Prim.Native.String.{String}
use mathlib.Core.Bool.{Bool, true, false, ◌&&◌, ◌||◌}
use geoplane.Base.Tests.{leb, if◌then◌else◌}

-- ECMAScript's WhiteSpace and LineTerminator code points
abbrev in_range : ℕ → ℕ → ℕ → Bool
in_range lo hi n = leb lo n && leb n hi

unfoldable pub is_space : Char → Bool
is_space c =
    in_range 9 13 (code c)
    || in_range 32 32 (code c)
    || in_range 0xa0 0xa0 (code c)
    || in_range 0x1680 0x1680 (code c)
    || in_range 0x2000 0x200a (code c)
    || in_range 0x2028 0x2029 (code c)
    || in_range 0x202f 0x202f (code c)
    || in_range 0x205f 0x205f (code c)
    || in_range 0x3000 0x3000 (code c)
    || in_range 0xfeff 0xfeff (code c)

unfoldable pub trim_start : String → String
trim_start String.[] = String.[]
trim_start (String.◌∷◌ c s) = let rest = trim_start s in if is_space c then rest else String.◌∷◌ c s

-- a character in front of what is left of a text when its end is trimmed
abbrev keep_char : Char → String → String
keep_char c String.[] = if is_space c then String.[] else String.◌∷◌ c String.[]
keep_char c (String.◌∷◌ d s) = String.◌∷◌ c (String.◌∷◌ d s)

unfoldable pub trim_end : String → String
trim_end String.[] = String.[]
trim_end (String.◌∷◌ c s) = keep_char c (trim_end s)

unfoldable pub trim : String → String
unfolding trim_start trim_end is_space
trim s = trim_end (trim_start s)

-- `s.length === 0`
abbrev pub is_empty_text : String → Bool
is_empty_text String.[] = true
is_empty_text (String.◌∷◌ c s) = false

-- `s.trim().length === 0`
unfoldable pub is_blank : String → Bool
unfolding trim
is_blank s = is_empty_text (trim s)
