-- ===== src/Cli/Encode.antt =====
-- cli/src/main.rs: the percent encoding of paths and queries.
pub mod Safe
use Prim.Native.Char.{code}
use Prim.Native.String.{◌++◌}
use quiltc.Prelude.{
  ℕ, ◌+◌, ◌/◌, ◌%◌, String, Bool, not, ◌&&◌, ◌||◌, List, [], ◌∷◌, map, keep, ltb, leb, ◌==◌,
  if◌then◌else◌,
}
use quiltc.Prelude.Text.{split, join, is_empty}

abbrev pub hex_digit : ℕ → String
hex_digit n =
    if n == 0
    then "0"
    else if n == 1
    then "1"
    else if n == 2
    then "2"
    else if n == 3
    then "3"
    else if n == 4
    then "4"
    else if n == 5
    then "5"
    else if n == 6
    then "6"
    else if n == 7
    then "7"
    else if n == 8
    then "8"
    else if n == 9
    then "9"
    else if n == 10
    then "A"
    else if n == 11
    then "B"
    else if n == 12
    then "C"
    else if n == 13
    then "D"
    else if n == 14
    then "E"
    else "F"

abbrev pub escape : ℕ → String
escape b = "%" ++ (hex_digit (b / 16) ++ hex_digit (b % 16))

abbrev pub escapes : List ℕ → String
escapes [] = ""
escapes (b ∷ bs) = escape b ++ escapes bs

-- The UTF-8 bytes of a code point
abbrev pub utf8 : ℕ → List ℕ
utf8 c =
    if ltb c 128
    then c ∷ []
    else if ltb c 2048
    then (192 + c / 64) ∷ (128 + c % 64) ∷ []
    else if ltb c 65536
    then (224 + c / 4096) ∷ (128 + c / 64 % 64) ∷ (128 + c % 64) ∷ []
    else (240 + c / 262144) ∷ (128 + c / 4096 % 64) ∷ (128 + c / 64 % 64) ∷ (128 + c % 64) ∷ []

-- The letters and digits of ASCII
abbrev pub is_alphanumeric : ℕ → Bool
is_alphanumeric c = (leb 48 c && leb c 57) || (leb 65 c && leb c 90) || (leb 97 c && leb c 122)

-- `percent_encode(…, NON_ALPHANUMERIC)`
unfoldable pub encode_query : String → String
encode_query String.[] = ""
encode_query (String.◌∷◌ c s) =
    let rest = encode_query s in
    if is_alphanumeric (code c) then String.◌∷◌ c rest else escapes (utf8 (code c)) ++ rest

unfoldable pub encode_path : String → String
encode_path path = join "/" (map encode_query (keep (λ s. not (is_empty s)) (split b'/' path)))
