-- ===== src/Cli/Http.antt =====
-- cli/src/http_client.rs: Client::send_json_bytes, which sends a request again after some
-- failures.
pub mod Retries
use quiltc.Prelude.{
  ℕ, zero, suc, ◌*◌, String, Bool, true, false, ◌&&◌, ◌||◌, Option, none, some, List, [], ◌∷◌, ◌++◌,
  leb, ◌==◌, if◌then◌else◌,
}
use quiltc.Control.Json.{Value}

pub data Method : Type 0 where
  get post put delete patch : Method
  other : String → Method

-- cli/src/error.rs
pub record ErrorResponse : Type 0 where
  pub error : Option String
  pub error_code : Option String
  pub request_id : Option String
  pub details : Option Value
  pub retry_after : Option ℕ
  pub hint : Option String

-- A response: its status code, its header Retry-After where that is a number, and its body.
pub record HttpReply : Type 0 where
  pub status : ℕ
  pub retry_after_header : Option ℕ
  pub body : String

abbrev pub is_read : Method → Bool
is_read get = true
is_read delete = true
is_read m = false

unfoldable pub should_retry : Method → ℕ → Bool
should_retry method status =
    if status == 429
    then true
    else if leb 500 status && leb status 599
    then is_read method
    else false

abbrev seconds_or : Option ℕ → ℕ → ℕ
seconds_or none d = d
seconds_or (some s) d = 1000 * s

abbrev retry_after_of : Option ErrorResponse → Option ℕ
retry_after_of none = none
retry_after_of (some e) = e.retry_after

-- In milliseconds
unfoldable pub retry_sleep : ℕ → Option ℕ → Option ErrorResponse → ℕ
retry_sleep status retry_after_header e =
    if status == 429
    then seconds_or retry_after_header (seconds_or (retry_after_of e) 1000)
    else 300

-- How the call ends: a successful response's body, no response, or the last error response.
pub data Ending : Type 0 where
  received : String → Ending
  request_failed : Ending
  refused : ℕ → Option ErrorResponse → String → Ending

-- The ending, the number of requests sent and the waits between them.
pub record Exchange : Type 0 where
  pub ending : Ending
  pub requests : ℕ
  pub waits : List ℕ

-- What surrounds a call: serde_json's reading of an error body, and the answer to each request.
pub record HttpWorld : Type 0 where
  pub parse_error : String → Option ErrorResponse
  pub replies : ℕ → Option HttpReply

module _ (w : HttpWorld) (method : Method) (retries : ℕ) where
  -- `sent` requests were sent before; `again` goes on after a wait.
  abbrev pub after_reply : ℕ → List ℕ → Option HttpReply → (ℕ → Option Exchange) → Option Exchange
  after_reply sent waits none again =
      some (record { ending = request_failed; requests = suc sent; waits = waits })
  after_reply sent waits (some r) again =
      if leb 200 r.status && leb r.status 299
      then some (record { ending = received r.body; requests = suc sent; waits = waits })
      else if leb (suc sent) retries && should_retry method r.status
      then again (retry_sleep r.status r.retry_after_header (w.parse_error r.body))
      else some (record {
        ending = refused r.status (w.parse_error r.body) r.body;
        requests = suc sent;
        waits = waits;
      })

  unfoldable pub send_loop : ℕ → ℕ → List ℕ → Option Exchange
  unfolding should_retry retry_sleep
  send_loop zero sent waits = none
  send_loop (suc fuel) sent waits =
      after_reply sent waits (w.replies sent)
        (λ wait. send_loop fuel (suc sent) (waits ++ wait ∷ []))

  -- With fuel for the first request and each retry
  unfoldable pub send_json_bytes : Option Exchange
  unfolding send_loop
  send_json_bytes = send_loop (suc retries) 0 []
