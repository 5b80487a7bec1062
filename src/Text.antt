-- ===== src/Text.antt =====
-- What the server uses of Go's packages `strings` and `unicode`, over the code points of a string.
pub mod Trim
pub mod Split
use ppgram.Prelude.{
  ℕ, ◌+◌, List, [], ◌∷◌, ◌++◌, map, Bool, true, false, ◌&&◌, ◌||◌, leb, ltb, ◌==◌, GoString,
  is_empty, if◌then◌else◌,
}

-- `unicode.IsSpace`: the code points with the property White_Space.
unfoldable pub is_space : ℕ → Bool
is_space c =
    (leb 9 c && leb c 13)
    || c == 32
    || c == 0x85
    || c == 0xa0
    || c == 0x1680
    || (leb 0x2000 c && leb c 0x200a)
    || c == 0x2028
    || c == 0x2029
    || c == 0x202f
    || c == 0x205f
    || c == 0x3000

-- The leading and the trailing code points with the property are cut off.
unfoldable pub trim_left : (ℕ → Bool) → GoString → GoString
trim_left p [] = []
trim_left p (c ∷ s) = if p c then trim_left p s else c ∷ s

unfoldable pub trim_right : (ℕ → Bool) → GoString → GoString
trim_right p [] = []
trim_right p (c ∷ s) = let rest = trim_right p s in if is_empty rest && p c then [] else c ∷ rest

-- `strings.TrimFunc`
unfoldable pub trim_func : (ℕ → Bool) → GoString → GoString
unfolding trim_left trim_right is_empty
trim_func p s = trim_right p (trim_left p s)

-- `strings.TrimSpace`
unfoldable pub trim_space : GoString → GoString
unfolding trim_func is_space
trim_space s = trim_func is_space s

-- `unicode.ToLower`; the part of its table above ASCII is an argument.
unfoldable pub to_lower_rune : (ℕ → ℕ) → ℕ → ℕ
to_lower_rune lower_high c =
    if ltb c 128 then (if leb 65 c && leb c 90 then c + 32 else c) else lower_high c

-- `strings.ToLower`
unfoldable pub to_lower : (ℕ → ℕ) → GoString → GoString
unfolding to_lower_rune
to_lower lower_high s = map (to_lower_rune lower_high) s

-- One more code point in front of the first part.
unfoldable pub cons_head : ℕ → List GoString → List GoString
cons_head c [] = (c ∷ []) ∷ []
cons_head c (part ∷ parts) = (c ∷ part) ∷ parts

-- `strings.Split` at a separator of one code point.
unfoldable pub split : ℕ → GoString → List GoString
unfolding cons_head
split sep [] = [] ∷ []
split sep (c ∷ s) = let rest = split sep s in if c == sep then [] ∷ rest else cons_head c rest

-- `strings.Join` with a separator of one code point.
unfoldable pub join : ℕ → List GoString → GoString
join sep [] = []
join sep (part ∷ []) = part
join sep (part ∷ next ∷ parts) = part ++ sep ∷ join sep (next ∷ parts)
