-- ===== src/Cli/Client.antt =====
-- cli/src/http_client.rs: the operations of Client, with the requests that they make.
pub mod Calls
use Prim.Native.String.{◌++◌ as ◌^◌}
use quiltc.Prelude.{ℕ, ◌+◌, String, Option, none, some, List, [], ◌∷◌, ◌++◌, length, if◌then◌else◌}
use quiltc.Prelude.Text.{is_empty}
use quiltc.Control.Json.{Value}
use quiltc.Cli.Http.{
  Method, get, post, put, delete, patch, other, ErrorResponse, Ending, received, request_failed,
  refused, Exchange, send_json_bytes,
}
use quiltc.Cli.Console.{
  Platform, Console, Result, ok, stuck, M, ◌>>=◌, pure, bail, some_or, print, write_file,
  json_value, text,
}

pub data TenantAuth : Type 0 where
  jwt : String → TenantAuth
  api_key : String → TenantAuth

pub record Client : Type 0 where
  pub base_url : String
  pub tenant_auth : Option TenantAuth
  pub user_agent : String
  pub retries : ℕ

abbrev pub Headers : Type 0
Headers = List (String × String)

-- `Display` of a method
abbrev pub method_text : Method → String
method_text get = "GET"
method_text post = "POST"
method_text put = "PUT"
method_text delete = "DELETE"
method_text patch = "PATCH"
method_text (other m) = m

abbrev pub auth_headers : Option TenantAuth → Headers
auth_headers none = []
auth_headers (some (jwt t)) = ("authorization", "Bearer " ^ t) ∷ []
auth_headers (some (api_key k)) = ("x-api-key", k) ∷ []

abbrev pub sum : List ℕ → ℕ
sum [] = 0
sum (n ∷ ns) = n + sum ns

-- `{:?}` of an option, for the `{:?}` of its value
abbrev pub show_option {ℓ} : {A : Type ℓ} → (A → String) → Option A → String
show_option f none = "None"
show_option f (some a) = "Some(" ^ (f a ^ ")")

module _ (p : Platform) where
  abbrev details_text : Option Value → String
  details_text none = "null"
  details_text (some v) = p.to_text v

  abbrev failed_text : Method → String → ℕ → String
  failed_text method url status =
      "HTTP " ^ (method_text method ^ (" " ^ (url ^ (" failed: status=" ^ p.show_nat status))))

  abbrev codes_text : ErrorResponse → String
  codes_text e =
      " error_code="
      ^ (show_option p.debug_text e.error_code
          ^ (" error="
              ^ (show_option p.debug_text e.error
                  ^ (" request_id=" ^ show_option p.debug_text e.request_id))))

  -- The text of an error response: the service's own error, or the raw body.
  unfoldable pub refused_text : Method → String → ℕ → Option ErrorResponse → String → String
  refused_text method url status none body = failed_text method url status ^ (" body=" ^ body)
  refused_text method url status (some e) body =
      failed_text method url status
      ^ (codes_text e
          ^ (" retry_after="
              ^ (show_option p.show_nat e.retry_after
                  ^ (" hint="
                      ^ (show_option p.debug_text e.hint
                          ^ (" details=" ^ details_text e.details))))))

  -- The text that the streaming call gives
  unfoldable pub stream_refused_text : Method → String → ℕ → Option ErrorResponse → String → String
  stream_refused_text method url status none body =
      failed_text method url status ^ (" body=" ^ body)
  stream_refused_text method url status (some e) body = failed_text method url status ^ codes_text e

abbrev pub recorded :
    Method
    → String
    → Headers
    → Option Value
    → Console
    → Option Exchange
    → Result String Ending × Console
recorded method url headers body w none = (stuck, w)
recorded method url headers body w (some e) = (
  ok e.ending,
  record w {
    drawn = w.drawn + e.requests;
    now = w.now + w.delays (length w.calls) + sum e.waits;
    calls =
        w.calls
        ++ record {
          method = method;
          url = url;
          headers = headers;
          body = body;
          attempts = e.requests;
        }
          ∷ [];
  },
)

-- serde_json's text, or the raw body; nothing is a success.
unfoldable pub print_bytes : Platform → String → M String Unit
print_bytes p b =
    if is_empty b
    then print (text "{\"success\":true}")
    else elim (p.from_text b) [ none ↦ print (text b) | some v ↦ print (json_value v) ]

module _ (p : Platform) (c : Client) where
  abbrev pub request_headers : Headers → Headers
  request_headers headers = ("user-agent", c.user_agent) ∷ (auth_headers c.tenant_auth ++ headers)

  unfoldable pub build_url : String → M String String
  build_url path =
      some_or ("Failed to join base_url=" ^ (c.base_url ^ (" with path=" ^ path)))
        (p.join_url c.base_url path)

  -- The attempts of the retry loop, as one call
  unfoldable pub send_attempts : ℕ → Method → String → Headers → Option Value → M String Ending
  send_attempts retries method url headers body w =
      recorded method url (request_headers headers) body w (
        send_json_bytes
          (record { parse_error = p.parse_error; replies = w.replies (length w.calls) }) method
          retries)

  abbrev pub finished : (ℕ → Option ErrorResponse → String → String) → Ending → M String String
  finished say (received b) = pure b
  finished say request_failed = bail "Request failed"
  finished say (refused status e body) = bail (say status e body)

  -- Client::send_json_bytes
  unfoldable pub call_bytes : Method → String → Headers → Option Value → M String String
  call_bytes method path headers body = do
    url ← build_url path
    ending ← send_attempts c.retries method url headers body
    finished (refused_text p method url) ending

  unfoldable pub send_json : Method → String → Headers → Option Value → M String Unit
  send_json method path headers body = do b ← call_bytes method path headers body; print_bytes p b

  -- The chunks of the body, as one text
  unfoldable pub stream_to_stdout : Method → String → Headers → Option Value → M String Unit
  stream_to_stdout method path headers body = do
    url ← build_url path
    ending ← send_attempts c.retries method url headers body
    b ← finished (stream_refused_text p method url) ending
    print (text b)

  -- A download is not tried again.
  unfoldable pub download_to_file : String → Headers → String → M String Unit
  download_to_file path headers out_path = do
    url ← build_url path
    ending ← send_attempts 0 get url headers none
    b ←
        finished
          (λ status e body. "Download failed: status=" ^ (p.show_nat status ^ (" body=" ^ body)))
          ending
    write_file ("Failed to create " ^ p.debug_text out_path) out_path (p.text_bytes b)
