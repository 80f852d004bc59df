-- ===== src/Cli/Capabilities.antt =====
-- cli/src/main.rs: preflight_capabilities, the check before a command that changes something.
use Prim.Native.String.{◌++◌}
use quiltc.Prelude.{
  String, Bool, true, false, not, Option, none, some, List, [], ◌∷◌, keep, str_eq, if◌then◌else◌,
}
use quiltc.Prelude.Text.{join}
use quiltc.Control.Json.{
  Value, null, string, array, object, Fields, end, field, nil, cons, lookup, as_bool,
}
use quiltc.Cli.Http.{get}
use quiltc.Cli.Console.{Platform, M, ◌>>=◌, pure, bail, skip, some_or, or_else}
use quiltc.Cli.Client.{Client, call_bytes}
use quiltc.Cli.Encode.{encode_query}
use quiltc.Cli.Args.{value_or}

-- `BTreeMap<String, bool>`
abbrev pub Matrix : Type 0
Matrix = List (String × Bool)

abbrev push_flag : String → Option Bool → Option Matrix → Option Matrix
push_flag k (some b) (some m) = some ((k, b) ∷ m)
push_flag k _ _ = none

-- A map of Booleans, if all its values are
abbrev flags : Fields → Option Matrix
flags end = some []
flags (field k v r) = push_flag k (as_bool (some v)) (flags r)

-- An optional text: absent, null, or a text
abbrev is_optional_text : Option Value → Bool
is_optional_text none = true
is_optional_text (some null) = true
is_optional_text (some (string s)) = true
is_optional_text _ = false

abbrev optional_flags : Option Value → Option Matrix
optional_flags (some (object r)) = flags r
optional_flags _ = none

-- The map of a `CapabilityMatrix`, if the value is one and has it. Serde reads a struct from an
-- object, or from an array of all its fields.
abbrev matrix_of : Value → Option Matrix
matrix_of (object r) =
    if is_optional_text (lookup "cluster_id" r)
    then optional_flags (lookup "capabilities" r)
    else none
matrix_of (array (cons id (cons caps (cons metadata nil)))) =
    if is_optional_text (some id) then optional_flags (some caps) else none
matrix_of _ = none

-- Every key, with false where the value is no Boolean
abbrev lenient_flags : Fields → Matrix
lenient_flags end = []
lenient_flags (field k v r) = (k, value_or false (as_bool (some v))) ∷ lenient_flags r

abbrev push_known : String → Option Bool → Matrix → Matrix
push_known k none m = m
push_known k (some b) m = (k, b) ∷ m

-- The keys whose values are Booleans
abbrev known_flags : Fields → Matrix
known_flags end = []
known_flags (field k v r) = push_known k (as_bool (some v)) (known_flags r)

abbrev nested_flags : Option Value → Fields → Matrix
nested_flags (some (object caps)) r = lenient_flags caps
nested_flags _ r = known_flags r

abbrev loose_matrix : Value → Matrix
loose_matrix (object r) = nested_flags (lookup "capabilities" r) r
loose_matrix _ = []

unfoldable pub parse_capability_matrix : Value → Matrix
parse_capability_matrix v = value_or (loose_matrix v) (matrix_of v)

abbrev pub has_capability : Matrix → String → Bool
has_capability [] cap = false
has_capability ((k, b) ∷ m) cap = if str_eq k cap then b else has_capability m cap

abbrev pub missing : Matrix → List String → List String
missing m required = keep (λ cap. not (has_capability m cap)) required

abbrev pub refuse_missing : String → List String → M String Unit
refuse_missing cluster_id [] = skip
refuse_missing cluster_id caps = bail (
    "UNSUPPORTED_NODE_CAPABILITY: cluster_id="
    ++ cluster_id
    ++ " missing_capabilities="
    ++ join "," caps)

module _ (p : Platform) (c : Client) where
  -- The capabilities of a cluster, from the older path where the first fails
  unfoldable pub capabilities_of : String → M String Matrix
  unfolding parse_capability_matrix
  capabilities_of id = do
    b ←
        or_else (call_bytes p c get ("/api/clusters/" ++ id ++ "/capabilities") [] none)
          (call_bytes p c get ("/api/capabilities?cluster_id=" ++ encode_query id) [] none)
    v ← some_or "Failed to parse capabilities JSON" (p.from_text b)
    pure (parse_capability_matrix v)

  unfoldable pub preflight_capabilities : Option String → List String → M String Unit
  preflight_capabilities cluster_id [] = skip
  preflight_capabilities cluster_id (cap ∷ caps) = do
    id ← some_or "--require-capability needs --cluster-id to run preflight checks" cluster_id
    m ← capabilities_of id
    refuse_missing id (missing m (cap ∷ caps))
