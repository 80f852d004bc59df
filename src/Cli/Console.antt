-- ===== src/Cli/Console.antt =====
-- What a command of cli/src runs in: the answers of the service, the files, the clock and the
-- output. A command is an action that threads the console and may return an error.
pub mod Contracts
pub mod Polls
use quiltc.Prelude.{
  ℕ, zero, suc, ◌+◌, ◌-◌, String, Bool, true, false, Option, none, some, List, [], ◌∷◌, ◌++◌, ltb,
  Res, if◌then◌else◌,
}
use quiltc.Prelude.Maps.{lookup, put}
use quiltc.Control.Json.{Value}
use quiltc.Cli.Http.{Method, HttpReply, ErrorResponse}
use quiltc.Cli.Config.{Config}

abbrev pub Bytes : Type 0
Bytes = List ℕ

-- What the code calls and does not define. `none` is a call that fails.
pub record Platform : Type 0 where
  pub from_text : String → Option Value
  pub from_bytes : Bytes → Option Value
  pub to_text : Value → String
  pub parse_error : String → Option ErrorResponse
  pub config_to_bytes : Config → Bytes
  pub config_from_bytes : Bytes → Option Config
  pub show_nat : ℕ → String
  -- `{:?}` of a text, and of a duration in milliseconds
  pub debug_text : String → String
  pub show_duration : ℕ → String
  pub to_lowercase : String → String
  pub to_uppercase : String → String
  pub base64_encode : Bytes → String
  pub base64_decode : String → Option Bytes
  -- `Url::parse`, `Url::join`, `HeaderName::from_bytes`, `HeaderValue::from_str`, `Method::from_bytes`
  pub parse_url : String → Option String
  pub join_url : String → String → Option String
  pub header_name : String → Option String
  pub header_value : String → Option String
  pub valid_method : String → Bool
  -- `Path::file_name` and `Path::extension` as texts, `String::from_utf8`
  pub file_name : String → Option String
  pub extension : String → Option String
  pub utf8_text : Bytes → Option String
  pub text_bytes : String → Bytes
  pub default_config_path : String
  -- `CARGO_PKG_VERSION`
  pub version : String

-- A call of the service: every attempt carries these, and an `x-request-id` of its own.
pub record ServiceCall : Type 0 where
  pub method : Method
  pub url : String
  pub headers : List (String × String)
  pub body : Option Value
  pub attempts : ℕ

pub data Output : Type 0 where
  json_value : Value → Output
  text : String → Output

-- `files` are all files by their paths, and `pages` what other servers give. `replies n k` is the answer to attempt k of call n, and `delays n` the time that call n takes;
-- `now` is in milliseconds.
pub record Console : Type 0 where
  pub files : List (String × Bytes)
  pub writable : String → Bool
  pub pages : String → Res String
  pub replies : ℕ → ℕ → Option HttpReply
  pub delays : ℕ → ℕ
  pub uuids : ℕ → String
  pub drawn : ℕ
  pub now : ℕ
  pub calls : List ServiceCall
  pub output : List Output

-- `stuck` is fuel that did not suffice.
pub data Result (E A : Type 0) : Type 0 where
  ok : A → Result E A
  err : E → Result E A
  stuck : Result E A

abbrev pub M : Type 0 → Type 0 → Type 0
M E A = Console → Result E A × Console

abbrev pub resume : {E A B : Type 0} → Result E A → Console → (A → M E B) → Result E B × Console
resume (ok a) w f = f a w
resume (err e) w f = (err e, w)
resume stuck w f = (stuck, w)

unfoldable pub pure : {E A : Type 0} → A → M E A
pure a w = (ok a, w)

unfoldable pub bail : {E A : Type 0} → E → M E A
bail e w = (err e, w)

abbrev pub read_result : {E : Type 0} → E → Option Bytes → M E Bytes
read_result e none w = (err e, w)
read_result e (some b) w = (ok b, w)

unfoldable pub read_file : {E : Type 0} → E → String → M E Bytes
read_file e path w = read_result e (lookup path w.files) w

abbrev pub write_result : {E : Type 0} → E → String → Bytes → Bool → M E Unit
write_result e path b true w = (ok tt, record w { files = put path b w.files })
write_result e path b false w = (err e, w)

-- `fs::write`, after `create_dir_all` of the parent
unfoldable pub write_file : {E : Type 0} → E → String → Bytes → M E Unit
write_file e path b w = write_result e path b (w.writable path) w

unfoldable pub print : {E : Type 0} → Output → M E Unit
print o w = (ok tt, record w { output = w.output ++ o ∷ [] })

unfoldable pub new_uuid : {E : Type 0} → M E String
new_uuid w = (ok (w.uuids w.drawn), record w { drawn = suc w.drawn })

unfoldable pub read_clock : {E : Type 0} → M E ℕ
read_clock w = (ok w.now, w)

-- Opening this opens the actions above.
infixl 5 ◌>>=◌ ◌>>◌
unfoldable pub ◌>>=◌ : {E A B : Type 0} → M E A → (A → M E B) → M E B
unfolding pure bail read_file write_file print new_uuid read_clock
◌>>=◌ m f w = resume (m w).0 (m w).1 f

abbrev pub ◌>>◌ : {E A B : Type 0} → M E A → M E B → M E B
m >> k = m >>= λ _. k

abbrev pub skip : {E : Type 0} → M E Unit
skip = pure tt

-- `context(…)?` on an option
abbrev pub some_or : {E A : Type 0} → E → Option A → M E A
some_or e none = bail e
some_or e (some a) = pure a

abbrev pub changed : {E F A : Type 0} → (E → F) → Result E A → Result F A
changed f (ok a) = ok a
changed f (err e) = err (f e)
changed f stuck = stuck

-- `map_err`
unfoldable pub map_err : {E F A : Type 0} → (E → F) → M E A → M F A
map_err f m w = (changed f (m w).0, (m w).1)

-- `match m { Ok(a) => a, Err(_) => k }`
abbrev pub recovered : {E A : Type 0} → Result E A → Console → M E A → Result E A × Console
recovered (ok a) w k = (ok a, w)
recovered (err e) w k = k w
recovered stuck w k = (stuck, w)

unfoldable pub or_else : {E A : Type 0} → M E A → M E A → M E A
or_else m k w = recovered (m w).0 (m w).1 k

abbrev pub slept : ℕ → Console → Console
slept d w = record w { now = w.now + d }

module _ {E A : Type 0} (timeout period : ℕ) (late : E) (ask : M E (Option A)) where
  abbrev pub after_ask : Result E (Option A) → Console → M E A → Result E A × Console
  after_ask (ok (some a)) w again = (ok a, w)
  after_ask (ok none) w again = again w
  after_ask (err e) w again = (err e, w)
  after_ask stuck w again = (stuck, w)

  -- `loop { if started.elapsed() > timeout { bail } … sleep(period) }`
  unfoldable pub poll_until : ℕ → ℕ → M E A
  poll_until zero started w = (stuck, w)
  poll_until (suc fuel) started w =
      if ltb timeout (w.now - started)
      then (err late, w)
      else after_ask (ask w).0 (ask w).1 (λ v. poll_until fuel started (slept period v))
