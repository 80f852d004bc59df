-- ===== src/Agent/Address.antt =====
-- std's `Ipv4Addr::from_str`, which the agent calls on a peer's host address.
use Prim.Native.Char.{code}
use quiltc.Prelude.{
  ℕ, zero, suc, ◌+◌, ◌*◌, ◌-◌, String, Bool, false, ◌&&◌, ◌||◌, not, Option, none, some, leb, ◌==◌,
  if◌then◌else◌,
}
use quiltc.Prelude.Text.{whole, parts, split_once}

abbrev dot : ℕ
dot = 46

abbrev is_digit : ℕ → Bool
is_digit c = leb 48 c && leb c 57

-- The value of a text of digits, read on from a value.
abbrev digits : ℕ → String → Option ℕ
digits n String.[] = some n
digits n (String.◌∷◌ c s) = if is_digit (code c) then digits (10 * n + (code c - 48)) s else none

abbrev size : String → ℕ
size String.[] = 0
size (String.◌∷◌ c s) = suc (size s)

abbrev has_zero_prefix : String → Bool
has_zero_prefix String.[] = false
has_zero_prefix (String.◌∷◌ c String.[]) = false
has_zero_prefix (String.◌∷◌ c (String.◌∷◌ d s)) = code c == 48

abbrev in_octet : Option ℕ → Option ℕ
in_octet none = none
in_octet (some n) = if leb n 255 then some n else none

-- One to three digits, with no needless zero in front, of value at most 255
abbrev octet : String → Option ℕ
octet s =
    if size s == 0 || not (leb (size s) 3) || has_zero_prefix s then none else in_octet (digits 0 s)

abbrev push_octet : ℕ → Option ℕ → Option ℕ
push_octet n none = none
push_octet n (some k) = some (256 * n + k)

-- As many octets as the first number says, then a last one
abbrev octets : ℕ → ℕ → String → Option ℕ
octets zero n s = push_octet n (octet s)
octets (suc more) n s = elim (split_once dot s) [
  | whole ↦ none
  | parts a rest ↦ elim (push_octet n (octet a)) [ none ↦ none | some k ↦ octets more k rest ]
]

unfoldable pub parse_ipv4 : String → Option ℕ
unfolding split_once
parse_ipv4 s = octets 3 0 s
