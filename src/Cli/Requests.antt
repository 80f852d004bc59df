-- ===== src/Cli/Requests.antt =====
-- cli/src/main.rs: run_request, a request that the user writes.

use quiltc.Prelude.{
  String, Bool, true, false, Option, none, some, List, [], ◌∷◌, str_eq, if◌then◌else◌,
}
use quiltc.Prelude.Maps.{put}
use quiltc.Prelude.Text.{Split, whole, parts, split_once, trim}
use quiltc.Control.Json.{Value}
use quiltc.Cli.Http.{Method, get, post, delete, patch, other}
use quiltc.Cli.Http
use quiltc.Cli.Console.{Platform, M, ◌>>=◌, pure, bail, some_or}
use quiltc.Cli.Client.{Client, Headers, send_json, stream_to_stdout, download_to_file}
use quiltc.Cli.Args.{parse_optional_json}

pub record RequestArgs : Type 0 where
  pub method : String
  pub path : String
  pub json_body : Option String
  pub header : List String
  pub stream : Bool
  pub out : Option String

-- `Method::from_bytes`, after `to_uppercase`
abbrev method_of : Platform → String → Option Method
method_of p m =
    if str_eq m "GET"
    then some get
    else if str_eq m "POST"
    then some post
    else if str_eq m "PUT"
    then some Http.put
    else if str_eq m "DELETE"
    then some delete
    else if str_eq m "PATCH"
    then some patch
    else if p.valid_method m
    then some (other m)
    else none

unfoldable pub parse_method : Platform → String → M String Method
parse_method p m = some_or "Invalid method" (method_of p m)

unfoldable pub header_kv : Platform → String → String → M String (String × String)
header_kv p k v = do
  name ← some_or "Invalid header name" (p.header_name k)
  value ← some_or "Invalid header value" (p.header_value v)
  pure (name, value)

abbrev pub parse_header : Platform → Split → M String (String × String)
parse_header p whole = bail "Header must be in 'Name: value' format"
parse_header p (parts k v) = header_kv p (trim k) (trim v)

-- A header with the name of an earlier one replaces it.
unfoldable pub parse_headers : Platform → List String → Headers → M String Headers
parse_headers p [] headers = pure headers
parse_headers p (h ∷ hs) headers = do
  kv ← parse_header p (split_once b':' h)
  parse_headers p hs (put kv.0 kv.1 headers)

abbrev pub is_get : Method → Bool
is_get get = true
is_get m = false

module _ (p : Platform) (c : Client) where
  abbrev pub send : Method → RequestArgs → Headers → Option Value → Option String → M String Unit
  send method a headers body (some out_path) =
      if is_get method
      then download_to_file p c a.path headers out_path
      else bail "--out is only supported with GET"
  send method a headers body none =
      if a.stream
      then stream_to_stdout p c method a.path headers body
      else send_json p c method a.path headers body

  unfoldable pub run_request : RequestArgs → M String Unit
  run_request a = do
    method ← parse_method p (p.to_uppercase a.method)
    body ← parse_optional_json p a.json_body
    headers ← parse_headers p a.header []
    send method a headers body a.out
