-- ===== src/Control/World.antt =====
-- What a handler of control/src runs in: the data base, and what the environment supplies. A
-- handler is an action that threads the world and may return an `anyhow` error; what was written
-- before an error stays written (each statement commits by itself), but inside `transaction`.
pub mod Keeps
pub mod Silent
pub mod Sends
use quiltc.Prelude.{ℕ, suc, String, Bool, Option, List, [], ◌∷◌, ◌++◌, length, Res, ok, err}
use quiltc.Prelude.Int.{ℤ}
use quiltc.Control.Json.{F64, Value}
use quiltc.Control.Rows.{
  PolicyTableRow, SloTableRow, WorkloadObservationRow, NodeGroupObservationRow, OrchestratorIntent,
  ActionRow,
}

-- What the code calls and does not define: serde_json's text form, SHA-256 in hexadecimal, and
-- the processor's `f64`.
pub record Externals : Type 0 where
  pub to_text : Value → String
  pub from_text : String → Option Value
  pub ids_to_text : List String → String
  pub ids_from_text : String → Option (List String)
  pub sha256_hex : String → String
  pub show_nat : ℕ → String
  pub f_max : F64 → F64 → F64
  pub f_min : F64 → F64 → F64
  pub f_add : F64 → F64 → F64
  pub f_mul : F64 → F64 → F64
  pub f_div : F64 → F64 → F64
  pub f_gt : F64 → F64 → Bool
  pub f_ceil : F64 → F64
  pub f_round : F64 → F64
  pub f_of_int : ℤ → F64
  pub to_i64 : F64 → ℤ
  pub to_u32 : F64 → ℕ
  -- `f_lit m k` is the literal m / 10 ^ k.
  pub f_lit : ℕ → ℕ → F64

pub record Db : Type 0 where
  pub policies : List PolicyTableRow
  pub slos : List SloTableRow
  pub observations : List WorkloadObservationRow
  pub groups : List NodeGroupObservationRow
  pub intents : List OrchestratorIntent
  pub actions : List ActionRow

pub data Method : Type 0 where
  get post : Method

pub record Request : Type 0 where
  pub method : Method
  pub url : String
  pub headers : List (String × String)
  pub body : Option Value

-- The status code and the body of a response.
pub record Reply : Type 0 where
  pub status : ℕ
  pub body : String

-- `clock`, `uuids` and `replies` are the environment's answers in the order in which they are
-- asked for; a request that gets no response is `none`.
pub record World : Type 0 where
  pub db : Db
  pub clock : ℕ → ℕ
  pub reads : ℕ
  pub uuids : ℕ → String
  pub drawn : ℕ
  pub replies : ℕ → Option Reply
  pub sent : List Request

abbrev pub M : Type 0 → Type 0
M A = World → Res A × World

abbrev pub resume : {A B : Type 0} → Res A → World → (A → M B) → Res B × World
resume (ok a) w f = f a w
resume (err e) w f = (err e, w)

unfoldable pub pure : {A : Type 0} → A → M A
pure a w = (ok a, w)

-- `anyhow::bail!`, or a `?` on an error
unfoldable pub bail : {A : Type 0} → String → M A
bail e w = (err e, w)

-- The outcome as a value, where the code matches on a `Result`.
unfoldable pub attempt : {A : Type 0} → M A → M (Res A)
attempt m w = (ok (m w).0, (m w).1)

unfoldable pub gets : {A : Type 0} → (Db → A) → M A
gets f w = (ok (f w.db), w)

unfoldable pub modify : (Db → Db) → M Unit
modify f w = (ok tt, record w { db = f w.db })

unfoldable pub lift : {A : Type 0} → Res A → M A
lift r w = (r, w)

-- now_unix_seconds
unfoldable pub now_unix_seconds : M ℕ
now_unix_seconds w = (ok (w.clock w.reads), record w { reads = suc w.reads })

-- `Uuid::new_v4().to_string()`
unfoldable pub new_uuid : M String
new_uuid w = (ok (w.uuids w.drawn), record w { drawn = suc w.drawn })

unfoldable pub send : Request → M (Option Reply)
send r w = (ok (w.replies (length w.sent)), record w { sent = w.sent ++ r ∷ [] })

-- Opening this opens the actions above.
infixl 5 ◌>>=◌ ◌>>◌
unfoldable pub ◌>>=◌ : {A B : Type 0} → M A → (A → M B) → M B
unfolding pure bail attempt gets modify lift now_unix_seconds new_uuid send
◌>>=◌ m f w = resume (m w).0 (m w).1 f

abbrev pub ◌>>◌ : {A B : Type 0} → M A → M B → M B
m >> k = m >>= λ _. k

abbrev pub skip : M Unit
skip = pure tt

abbrev pub commit_or_roll_back : {A : Type 0} → World → Res A → World → Res A × World
commit_or_roll_back w (ok a) w' = (ok a, w')
commit_or_roll_back w (err e) w' = (err e, record w' { db = w.db })

-- `unchecked_transaction()` … `commit()`: an error drops the transaction, which rolls it back.
unfoldable pub transaction : {A : Type 0} → M A → M A
transaction m w = commit_or_roll_back w (m w).0 (m w).1

-- `for x in xs { … }` with `?` in its body
unfoldable pub for_each : {A : Type 0} → (A → M Unit) → List A → M Unit
for_each f [] = skip
for_each f (x ∷ xs) = f x >> for_each f xs
