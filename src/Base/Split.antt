-- ===== src/Base/Split.antt =====
-- `String.prototype.split` and `indexOf` at a separator of one character.
use Prim.Native.Char.{Char}
use Prim.Native.String.{String, ◌++◌ as join}
use mathlib.Core.Path.{◌≡◌, refl, ap, ◌∙◌}
use mathlib.Core.Bool.{Bool, true, false, ◌&&◌, ◌||◌}
use mathlib.Core.Option.{Option, none, some}
use mathlib.Core.List.{List, [], ◌∷◌}
use mathlib.Core.Logic.{inl, inr, ◌≢◌}
use native.Mathlib.Omega.{arith}
use text.Mathlib.Text.{◌==◌}
use text.Mathlib.TextEquality.{eq_iff}
use text.Mathlib.TextPositions.{eq_refl}
use text.Mathlib.TextLemmas.{nil-append, cons-append}
use geoplane.Base.Lists.{All}
use geoplane.Base.Text.{is_empty_text}
use geoplane.Base.Tests.{if◌then◌else◌, Bool-cases}

abbrev pub one_char : Char → String
one_char c = String.◌∷◌ c String.[]

abbrev pub is_sep : String → Char → Bool
is_sep sep c = one_char c == sep

-- a character in front of the first part
abbrev pub push_char : Char → List String → List String
push_char c [] = one_char c ∷ []
push_char c (part ∷ parts) = String.◌∷◌ c part ∷ parts

-- `s.split(sep)`
unfoldable pub split_on : (sep : String) → String → List String
split_on sep String.[] = String.[] ∷ []
split_on sep (String.◌∷◌ c s) =
    let rest = split_on sep s in if is_sep sep c then String.[] ∷ rest else push_char c rest

-- `s.includes(sep)`
unfoldable pub has_sep : (sep : String) → String → Bool
has_sep sep String.[] = false
has_sep sep (String.◌∷◌ c s) = is_sep sep c || has_sep sep s

-- `parts.join(sep)`
unfoldable pub join_with : (sep : String) → List String → String
join_with sep [] = String.[]
join_with sep (part ∷ []) = part
join_with sep (part ∷ next ∷ parts) = join part (join sep (join_with sep (next ∷ parts)))

-- A part without the separator, and the separator after it, are split off.
pub split_on-join :
    (sep s rest : String) (c : Char)
    → one_char c ≡ sep
    → has_sep sep s ≡ false
    → split_on sep (join s (join sep rest)) ≡ s ∷ split_on sep rest
unfolding split_on has_sep
split_on-join sep String.[] rest c e h =
    rw (nil-append, ← e, cons-append, nil-append, split_on) (ground (arith, eq_refl (one_char c)))
split_on-join sep (String.◌∷◌ d s) rest c e h =
    rw (cons-append) (ground (arith, split_on-join sep s rest c e))

pub split_on-whole : (sep s : String) → has_sep sep s ≡ false → split_on sep s ≡ s ∷ []
unfolding split_on has_sep
split_on-whole sep String.[] h = refl
split_on-whole sep (String.◌∷◌ d s) h = ground (arith, split_on-whole sep s)

pub has_sep-join : (sep s t : String) → has_sep sep (join s t) ≡ (has_sep sep s || has_sep sep t)
unfolding has_sep
has_sep-join sep String.[] t = rw (nil-append) refl
has_sep-join sep (String.◌∷◌ d s) t = rw (cons-append) (ground (arith, has_sep-join sep s t))

pub empty-join : (s t : String) → is_empty_text s ≡ false → is_empty_text (join s t) ≡ false
empty-join String.[] t h = absurd (ground arith)
empty-join (String.◌∷◌ d s) t h = rw (cons-append) refl

push_All :
    (sep : String) (c : Char) (parts : List String)
    → is_sep sep c ≡ false
    → All (λ part. has_sep sep part ≡ false) parts
    → All (λ part. has_sep sep part ≡ false) (push_char c parts)
unfolding has_sep
push_All sep c [] e h = (ground arith, tt)
push_All sep c (p ∷ ps) e h = (ground arith, h.1)

push_ne : (c : Char) (parts : List String) → push_char c parts ≢ []
push_ne c [] e = cc e
push_ne c (p ∷ ps) e = cc e

join_push :
    (sep : String) (c : Char) (parts : List String)
    → join_with sep (push_char c parts) ≡ String.◌∷◌ c (join_with sep parts)
unfolding join_with
join_push sep c [] = refl
join_push sep c (p ∷ []) = refl
join_push sep c (p ∷ q ∷ ps) = cons-append c p (join sep (join_with sep (q ∷ ps)))

join_empty :
    (sep : String) (c : Char) (parts : List String)
    → is_sep sep c ≡ true
    → parts ≢ []
    → join_with sep (String.[] ∷ parts) ≡ String.◌∷◌ c (join_with sep parts)
unfolding join_with
join_empty sep c [] e h = absurd (h refl)
join_empty sep c (p ∷ ps) e h =
    let rest = join_with sep (p ∷ ps) in
    nil-append (join sep rest)
    ∙ rw (← (eq_iff (one_char c) sep).0 e)
        (cons-append c String.[] rest ∙ ap (String.◌∷◌ c) (nil-append rest))

split_on-ne : (sep s : String) → split_on sep s ≢ []
unfolding split_on
split_on-ne sep String.[] e = cc e
split_on-ne sep (String.◌∷◌ d s) e = ground (arith, push_ne d (split_on sep s))

-- No part holds the separator.
pub split_on-All : (sep s : String) → All (λ part. has_sep sep part ≡ false) (split_on sep s)
unfolding split_on has_sep
split_on-All sep String.[] = (refl, tt)
split_on-All sep (String.◌∷◌ d s) = elim (Bool-cases (is_sep sep d)) [
  | inl yes_sep ↦ rw (yes_sep, split_on) (refl, split_on-All sep s)
  | inr no_sep ↦ rw (no_sep, split_on) (push_All sep d (split_on sep s) no_sep (split_on-All sep s))
]

-- The parts, joined, are the text.
pub join_with-split_on : (sep s : String) → join_with sep (split_on sep s) ≡ s
unfolding split_on join_with
join_with-split_on sep String.[] = refl
join_with-split_on sep (String.◌∷◌ d s) = elim (Bool-cases (is_sep sep d)) [
  | inl same ↦
      rw (same, split_on)
        (join_empty sep d (split_on sep s) same (split_on-ne sep s)
          ∙ ap (String.◌∷◌ d) (join_with-split_on sep s))
  | inr other ↦
      rw (other, split_on)
        (join_push sep d (split_on sep s) ∙ ap (String.◌∷◌ d) (join_with-split_on sep s))
]

-- what stands before and after the first separator: `indexOf` with the two `slice`s
abbrev pub push_first : Char → Option (String × String) → Option (String × String)
push_first c none = none
push_first c (some (before, after)) = some (String.◌∷◌ c before, after)

unfoldable pub break_at : (sep : String) → String → Option (String × String)
break_at sep String.[] = none
break_at sep (String.◌∷◌ c s) =
    let rest = break_at sep s in if is_sep sep c then some (String.[], s) else push_first c rest

-- `s.startsWith(mark)` and `s.endsWith(mark)` for one character
abbrev pub starts_with : (mark : String) → String → Bool
starts_with mark String.[] = false
starts_with mark (String.◌∷◌ c s) = is_sep mark c

unfoldable pub ends_with : (mark : String) → String → Bool
ends_with mark String.[] = false
ends_with mark (String.◌∷◌ c String.[]) = is_sep mark c
ends_with mark (String.◌∷◌ c (String.◌∷◌ d s)) = ends_with mark (String.◌∷◌ d s)

unfoldable pub drop_last : String → String
drop_last String.[] = String.[]
drop_last (String.◌∷◌ c String.[]) = String.[]
drop_last (String.◌∷◌ c (String.◌∷◌ d s)) = String.◌∷◌ c (drop_last (String.◌∷◌ d s))

-- `s.slice(1, -1)`
unfoldable pub inner : String → String
unfolding drop_last
inner String.[] = String.[]
inner (String.◌∷◌ c s) = drop_last s

-- `t.startsWith(s)` and `t.includes(s)`
unfoldable pub is_prefix : (s t : String) → Bool
is_prefix String.[] t = true
is_prefix (String.◌∷◌ c s) String.[] = false
is_prefix (String.◌∷◌ c s) (String.◌∷◌ d t) = is_sep (one_char c) d && is_prefix s t

unfoldable pub includes_text : (s t : String) → Bool
unfolding is_prefix
includes_text s String.[] = is_prefix s String.[]
includes_text s (String.◌∷◌ d t) = is_prefix s (String.◌∷◌ d t) || includes_text s t
