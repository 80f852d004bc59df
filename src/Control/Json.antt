-- ===== src/Control/Json.antt =====
-- The JSON values of serde_json that control/src/services/orchestrator.rs reads and writes.
-- `Map` is an ordered map there, so an object's fields are kept sorted by key.
use Prim.Native.Char.{code}
use quiltc.Prelude.{
  ℕ, String, Bool, true, false, Option, none, some, List, [], ◌∷◌, ltb, ◌==◌, str_eq, if◌then◌else◌,
}

-- An `f64`, as its 64 bits.
abbrev pub F64 : Type 0
F64 = ℕ

-- serde_json's numbers: `neg_int n` is -(n + 1).
pub data Number : Type 0 where
  pos_int : ℕ → Number
  neg_int : ℕ → Number
  float : F64 → Number

mutual
  pub data Value : Type 0 where
    null : Value
    boolean : Bool → Value
    number : Number → Value
    string : String → Value
    array : Items → Value
    object : Fields → Value

  pub data Items : Type 0 where
    nil : Items
    cons : Value → Items → Items

  pub data Fields : Type 0 where
    end : Fields
    field : String → Value → Fields → Fields

-- The order of `str`: by bytes, which is by code points.
unfoldable pub str_lt : String → String → Bool
str_lt String.[] String.[] = false
str_lt String.[] (String.◌∷◌ d t) = true
str_lt (String.◌∷◌ c s) String.[] = false
str_lt (String.◌∷◌ c s) (String.◌∷◌ d t) =
    if code c == code d then str_lt s t else ltb (code c) (code d)

-- `Map::insert`
unfoldable pub insert : String → Value → Fields → Fields
insert k v end = field k v end
insert k v (field j w r) =
    if str_eq k j
    then field k v r
    else if str_lt k j
    then field k v (field j w r)
    else field j w (insert k v r)

unfoldable pub lookup : String → Fields → Option Value
lookup k end = none
lookup k (field j w r) = if str_eq k j then some w else lookup k r

-- `json!({ … })`
abbrev pub fields_of : List (String × Value) → Fields
fields_of [] = end
fields_of ((k, v) ∷ r) = insert k v (fields_of r)

abbrev pub json : List (String × Value) → Value
json r = object (fields_of r)

-- `Value::get` with a key, and `and_then(Value::as_…)` behind it
abbrev pub get : String → Value → Option Value
get k (object r) = lookup k r
get k _ = none

abbrev pub as_str : Option Value → Option String
as_str (some (string s)) = some s
as_str _ = none

abbrev pub as_u64 : Option Value → Option ℕ
as_u64 (some (number (pos_int n))) = some n
as_u64 _ = none

-- `as_i64`: a positive number above `i64::MAX` is none.
abbrev pub as_i64 : Option Value → Option Number
as_i64 (some (number (pos_int n))) = if ltb n 9223372036854775808 then some (pos_int n) else none
as_i64 (some (number (neg_int n))) = some (neg_int n)
as_i64 _ = none

abbrev pub as_bool : Option Value → Option Bool
as_bool (some (boolean b)) = some b
as_bool _ = none

-- The keys are visited in order, and each goes into a new ordered map with its canonical value.
unfoldable mutual
  pub canonical_json : Value → Value
  canonical_json (object r) = object (canonical_fields r)
  canonical_json (array xs) = array (canonical_items xs)
  canonical_json null = null
  canonical_json (boolean b) = boolean b
  canonical_json (number n) = number n
  canonical_json (string s) = string s

  pub canonical_items : Items → Items
  canonical_items nil = nil
  canonical_items (cons v xs) = cons (canonical_json v) (canonical_items xs)

  pub canonical_fields : Fields → Fields
  canonical_fields end = end
  canonical_fields (field k v r) = insert k (canonical_json v) (canonical_fields r)
