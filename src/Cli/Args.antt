-- ===== src/Cli/Args.antt =====
-- cli/src/main.rs: what the commands make of their arguments.
use Prim.Native.String.{◌++◌}
use quiltc.Prelude.{
  ℕ, String, Bool, true, not, ◌&&◌, Option, none, some, List, [], ◌∷◌, is_some, if◌then◌else◌,
}
use quiltc.Prelude.Text.{Split, whole, parts, split_once, strip_prefix, trim, is_empty, join}
use quiltc.Control.Json.{
  Value, null, boolean, number, string, object, pos_int, Fields, end, insert, lookup, Items, nil,
  cons,
}
use quiltc.Cli.Console.{Platform, M, ◌>>=◌, pure, bail, some_or, read_file}
use quiltc.Cli.Encode.{encode_query}

-- `json!` of an argument
abbrev pub nat_value : ℕ → Value
nat_value n = number (pos_int n)

abbrev pub optional {ℓ} : {A : Type ℓ} → (A → Value) → Option A → Value
optional f none = null
optional f (some a) = f a

abbrev pub strings : List String → Items
strings [] = nil
strings (s ∷ ss) = cons (string s) (strings ss)

abbrev pub value_or {ℓ} : {A : Type ℓ} → A → Option A → A
value_or d none = d
value_or d (some a) = a

-- The value of a text, or of the file that is named after `@`
abbrev pub read_json : Platform → String → Option String → M String Value
read_json p s none = some_or "Invalid JSON" (p.from_text s)
read_json p s (some path) = do
  b ← read_file ("Failed to read " ++ path) path
  some_or ("Invalid JSON in " ++ path) (p.from_bytes b)

unfoldable pub parse_json_arg : Platform → String → M String Value
parse_json_arg p s = read_json p s (strip_prefix "@" s)

-- `opt.map(parse_json_arg).transpose()?`
abbrev pub parse_optional_json : Platform → Option String → M String (Option Value)
parse_optional_json p none = pure none
parse_optional_json p (some s) = parse_json_arg p s >>= λ v. pure (some v)

abbrev pub async_fields : Option Bool → Bool → Fields → Fields
async_fields (some v) default_true r = insert "async_mode" (boolean v) r
async_fields none default_true r =
    if default_true && not (is_some (lookup "async_mode" r))
    then insert "async_mode" (boolean true) r
    else r

-- The body with its async_mode set
unfoldable pub maybe_set_async_mode : Value → Option Bool → Bool → M String Value
maybe_set_async_mode (object r) async_mode default_true =
    pure (object (async_fields async_mode default_true r))
maybe_set_async_mode _ async_mode default_true = bail "request spec must be a JSON object"

abbrev pub add_label : String → Split → Fields → M String Fields
add_label entry whole out = bail ("invalid --label '" ++ (entry ++ "', expected key=value"))
add_label entry (parts k v) out =
    if is_empty (trim k)
    then bail ("invalid --label '" ++ (entry ++ "': key cannot be empty"))
    else pure (insert (trim k) (string (trim v)) out)

unfoldable pub labels_into : List String → Fields → M String Fields
labels_into [] out = pure out
labels_into (entry ∷ rest) out = do
  more ← add_label entry (split_once b'=' entry) out
  labels_into rest more

-- A label with the key of an earlier one replaces it.
unfoldable pub parse_labels : List String → M String Fields
unfolding labels_into
parse_labels labels = labels_into labels end

-- `key=value` for a query, if the value is given
abbrev pub query_part : String → Option String → List String → List String
query_part key none rest = rest
query_part key (some v) rest = (key ++ ("=" ++ encode_query v)) ∷ rest

abbrev pub with_query : String → List String → String
with_query path [] = path
with_query path (q ∷ qs) = path ++ ("?" ++ join "&" (q ∷ qs))

unfoldable pub build_events_path : Option String → Option String → Option String → String
build_events_path operation_id snapshot_id container_id = with_query "/api/events" (
    query_part "operation_id" operation_id
      (query_part "snapshot_id" snapshot_id (query_part "container_id" container_id [])))
