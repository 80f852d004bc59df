-- ===== src/Cli/Kubernetes/Responses.antt =====
-- cli/src/main.rs: what the Kubernetes commands read from a response and print of it.
use Prim.Native.String.{◌++◌}
use quiltc.Prelude.{
  ℕ, ◌+◌, ◌%◌, ◌^◌, String, Bool, true, false, ◌||◌, Option, none, some, List, [], ◌∷◌, str_eq,
  if◌then◌else◌,
}
use quiltc.Prelude.Text.{join}
use quiltc.Control.Json.{
  Value, array, object, Items, nil, cons, Fields, end, field, as_str, as_u64, str_lt,
}
use quiltc.Control.Json
use quiltc.Cli.Console.{Platform, M, ◌>>◌, skip, print, json_value, text}
use quiltc.Cli.Args.{value_or}

abbrev pub as_items : Option Value → Items
as_items (some (array xs)) = xs
as_items _ = nil

abbrev as_fields : Option Value → Fields
as_fields (some (object r)) = r
as_fields _ = end

abbrev text_at : String → String → Value → String
text_at d k v = value_or d (as_str (Json.get k v))

-- `BTreeMap<String, u64>`, and one of such maps
abbrev pub Counts : Type 0
Counts = List (String × ℕ)

abbrev pub Summary : Type 0
Summary = List (String × Counts)

unfoldable pub count : String → ℕ → Counts → Counts
count k n [] = (k, n) ∷ []
count k n ((j, m) ∷ r) =
    if str_eq k j
    then (j, (m + n) % 2 ^ 64) ∷ r
    else if str_lt k j
    then (k, n) ∷ (j, m) ∷ r
    else (j, m) ∷ count k n r

unfoldable pub add : String → String → ℕ → Summary → Summary
unfolding count
add kind action n [] = (kind, count action n []) ∷ []
add kind action n ((j, m) ∷ r) =
    if str_eq kind j
    then (j, count action n m) ∷ r
    else if str_lt kind j
    then (kind, count action n []) ∷ (j, m) ∷ r
    else (j, m) ∷ add kind action n r

-- The key `action`, and `result` where there is none
abbrev action_of : Option Value → Value → String
action_of none v = text_at "unknown" "result" v
action_of (some a) v = value_or "unknown" (as_str (some a))

unfoldable pub count_resources : Items → Summary → Summary
count_resources nil m = m
count_resources (cons r rest) m =
    count_resources rest (add (text_at "Unknown" "kind" r) (action_of (Json.get "action" r) r) 1 m)

abbrev add_given : String → String → Option ℕ → Summary → Summary
add_given kind action none m = m
add_given kind action (some n) m = add kind action n m

unfoldable pub count_kinds : String → Fields → Summary → Summary
count_kinds action end m = m
count_kinds action (field kind n r) m =
    count_kinds action r (add_given kind action (as_u64 (some n)) m)

unfoldable pub count_actions : Fields → Summary → Summary
count_actions end m = m
count_actions (field action by_kind r) m =
    count_actions r (count_kinds action (as_fields (some by_kind)) m)

unfoldable pub summary_of : Value → Summary
unfolding count_resources count_actions
summary_of v =
    count_actions (as_fields (Json.get "summary" v))
      (count_resources (as_items (Json.get "resources" v)) [])

module _ (p : Platform) where
  abbrev count_texts : Counts → List String
  count_texts [] = []
  count_texts ((action, n) ∷ r) = (action ++ "=" ++ p.show_nat n) ∷ count_texts r

  abbrev message_text : Value → String
  message_text (object r) =
      "code="
      ++ text_at "" "code" (object r)
      ++ " field_path="
      ++ text_at "" "field_path" (object r)
      ++ " message="
      ++ text_at "" "message" (object r)
      ++ " hint="
      ++ text_at "" "hint" (object r)
      ++ " docs_url="
      ++ text_at "" "docs_url" (object r)
  message_text v = value_or (p.to_text v) (as_str (some v))

module _ (p : Platform) {E : Type 0} where
  unfoldable pub print_kinds : Summary → M E Unit
  print_kinds [] = skip
  print_kinds ((kind, actions) ∷ r) = do
    print (text ("  " ++ kind ++ ": " ++ join ", " (count_texts p actions)))
    print_kinds r

  abbrev pub print_summary : Summary → M E Unit
  print_summary [] = skip
  print_summary (k ∷ r) = print (text "summary:") >> print_kinds (k ∷ r)

  unfoldable pub print_k8s_summary : Value → M E Unit
  unfolding summary_of
  print_k8s_summary v = print_summary (summary_of v)

  -- print_backend_message of each
  unfoldable pub print_messages : String → Items → M E Unit
  print_messages level nil = skip
  print_messages level (cons v r) = do
    print (text (level ++ ": " ++ message_text p v))
    print_messages level r

  unfoldable pub print_k8s_messages : Value → M E Unit
  print_k8s_messages v = do
    print_messages "warning" (as_items (Json.get "warnings" v))
    print_messages "error" (as_items (Json.get "errors" v))

  unfoldable pub k8s_emit_response : Value → Bool → Bool → M E Unit
  k8s_emit_response v json_mode render_summary = if json_mode then print (json_value v) else (do
    if render_summary then print_k8s_summary v else skip
    print_k8s_messages v
    print (json_value v))

abbrev is_some_item : Items → Bool
is_some_item nil = false
is_some_item (cons v r) = true

unfoldable pub k8s_has_warnings : Value → Bool
k8s_has_warnings v = is_some_item (as_items (Json.get "warnings" v))

abbrev pub status_text : Platform → Value → String
status_text p v = p.to_lowercase (text_at "" "status" v)

abbrev pub is_failure : String → Bool
is_failure s = str_eq s "failed" || str_eq s "error" || str_eq s "cancelled" || str_eq s "canceled"

unfoldable pub k8s_operation_failed : Platform → Value → Bool
k8s_operation_failed p v = is_failure (status_text p v)

abbrev pub extract_operation_id : Value → Option String
extract_operation_id v = as_str (Json.get "operation_id" v)
