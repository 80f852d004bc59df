-- ===== src/Prelude/Text.antt =====
-- Rust's operations on `str` that the program uses, as functions on texts.
pub mod Laws
use Prim.Native.Nat.{ℕ}
use Prim.Native.Char.{Char, code}
use Prim.Native.String.{String, ◌++◌}
use mathlib.Core.Bool.{Bool, true, false, ◌&&◌, ◌||◌}
use mathlib.Core.Option.{Option, none, some}
use mathlib.Core.List.{List, [], ◌∷◌}
use quiltc.Prelude.Tests.{leb, ◌==◌, if◌then◌else◌, is_some}

pub data Split : Type 0 where
  whole : Split
  parts : String → String → Split

abbrev push_front : Char → Split → Split
push_front c whole = whole
push_front c (parts a b) = parts (String.◌∷◌ c a) b

-- `split_once`: the texts before and after the first character `sep`, if there is one.
unfoldable pub split_once : ℕ → String → Split
split_once sep String.[] = whole
split_once sep (String.◌∷◌ c s) =
    if code c == sep then parts String.[] s else push_front c (split_once sep s)

-- `strip_prefix`, with the prefix first
unfoldable pub strip_prefix : String → String → Option String
strip_prefix String.[] s = some s
strip_prefix (String.◌∷◌ p ps) String.[] = none
strip_prefix (String.◌∷◌ p ps) (String.◌∷◌ c s) =
    if code p == code c then strip_prefix ps s else none

-- `starts_with`
abbrev pub starts_with : String → String → Bool
starts_with s p = is_some (strip_prefix p s)

-- `contains`
unfoldable pub contains : String → String → Bool
unfolding strip_prefix
contains String.[] p = starts_with String.[] p
contains (String.◌∷◌ c s) p = starts_with (String.◌∷◌ c s) p || contains s p

-- The rounds that `trim_start_matches` makes at most: each takes a character.
abbrev pub strip_rounds : String → String → String → String
strip_rounds String.[] p s = s
strip_rounds (String.◌∷◌ c fuel) p s = elim (strip_prefix p s) [
  | none ↦ s
  | some rest ↦ strip_rounds fuel p rest
]

-- `trim_start_matches`: the prefix is taken off as often as it is there.
unfoldable pub trim_start_matches : String → String → String
unfolding strip_prefix
trim_start_matches p s = strip_rounds s p s

-- `char::is_whitespace`: the code points with the property White_Space
abbrev pub is_whitespace : ℕ → Bool
is_whitespace c =
    (leb 9 c && leb c 13)
    || c == 32
    || c == 133
    || c == 160
    || c == 5760
    || (leb 8192 c && leb c 8202)
    || c == 8232
    || c == 8233
    || c == 8239
    || c == 8287
    || c == 12288

unfoldable pub trim_start : String → String
trim_start String.[] = String.[]
trim_start (String.◌∷◌ c s) = if is_whitespace (code c) then trim_start s else String.◌∷◌ c s

abbrev pub is_empty : String → Bool
is_empty String.[] = true
is_empty (String.◌∷◌ c s) = false

unfoldable pub trim_end : String → String
trim_end String.[] = String.[]
trim_end (String.◌∷◌ c s) =
    let r = trim_end s in if is_empty r && is_whitespace (code c) then String.[] else String.◌∷◌ c r

-- `trim`
unfoldable pub trim : String → String
unfolding trim_start trim_end
trim s = trim_end (trim_start s)

abbrev push_first : Char → List String → List String
push_first c [] = []
push_first c (x ∷ xs) = String.◌∷◌ c x ∷ xs

-- `split`: the texts between the characters `sep`
unfoldable pub split : ℕ → String → List String
split sep String.[] = String.[] ∷ []
split sep (String.◌∷◌ c s) =
    let rest = split sep s in if code c == sep then String.[] ∷ rest else push_first c rest

-- The texts of a list with a separator between them: `join`.
unfoldable pub join : String → List String → String
join sep [] = ""
join sep (x ∷ []) = x
join sep (x ∷ y ∷ r) = x ++ (sep ++ join sep (y ∷ r))

-- A `|` in front of a text, as in `format!("{}|{}", …)`.
abbrev pub bar : String → String
bar r = String.◌∷◌ "|" r

-- Whether a text holds a character.
abbrev pub has_char : ℕ → String → Bool
has_char k String.[] = false
has_char k (String.◌∷◌ c s) = code c == k || has_char k s
