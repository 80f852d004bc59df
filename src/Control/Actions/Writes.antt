-- ===== src/Control/Actions/Writes.antt =====
-- control/src/services/orchestrator.rs: a predicate on the table of actions that an update of one
-- action and an insertion keep is kept by every statement that is made of these.
use Prim.Native.String.{◌++◌}
use quiltc.Prelude.{ℕ, ◌%◌, arith, String, ◌≡◌, refl, Option, none, some, List}
use quiltc.Prelude.Text.{bar}
use quiltc.Control.Json.{Value}
use quiltc.Control.Codes.{fast_loop_seconds, slow_loop_seconds}
use quiltc.Control.Rows.{ActionRow, DispatchAction}
use quiltc.Control.World.{Externals}
use quiltc.Control.World.Keeps.{
  Keeps, Keeps-pure, Keeps-bind, Keeps-now, Keeps-uuid, Keeps-gets, Keeps-lift,
}
use quiltc.Control.Actions.{
  update_action, insert_action, enqueue_action, set_action_status, update_action_result,
  schedule_retry, mark_terminal, rollback_with, enqueue_rollback, decision_window_start,
  pending_row, deterministic_idempotency_key, key_input,
}

-- What an action is: its tenant, its workload, its type, its payload and its decision window.
abbrev pub columns_of : ActionRow → String × String × String × String × ℕ
columns_of r = (r.tenant_id, r.workload_id, r.action_type, r.payload_json, r.decision_window_start)

-- The parts of an action's key, between bars
abbrev pub key_text : (ℕ → String) → String × String × String × String × ℕ → String
key_text show_nat (tenant, workload, type, payload, window) =
    tenant ++ bar (workload ++ bar (type ++ bar (payload ++ bar (show_nat window))))

-- The key of the row is the hash of what the action is, and its window is one of the loops'.
abbrev pub IsDerived : Externals → ActionRow → Type 0
IsDerived x r =
    (r.idempotency_key ≡ x.sha256_hex (key_text x.show_nat (columns_of r)))
    × (r.decision_window_start % fast_loop_seconds ≡ 0)

-- What no update of the program changes in a row.
pub record KeepsKeys (f : ActionRow → ActionRow) : Type 0 where
  pub action_id : (r : ActionRow) → (f r).action_id ≡ r.action_id
  pub idempotency_key : (r : ActionRow) → (f r).idempotency_key ≡ r.idempotency_key
  pub columns : (r : ActionRow) → columns_of (f r) ≡ columns_of r

-- The predicate is kept by the updates of the action `i`.
abbrev pub KeptByUpdates : (List ActionRow → Type 0) → String → Type 0
KeptByUpdates P i = (f : ActionRow → ActionRow) → KeepsKeys f → Keeps P (update_action i f)

-- The predicate is kept by the insertion of a row that the program makes.
abbrev pub KeptByInserts : Externals → (List ActionRow → Type 0) → Type 0
KeptByInserts x P = (row : ActionRow) → IsDerived x row → Keeps P (insert_action row)

pub fast_window : (now : ℕ) → decision_window_start now fast_loop_seconds % fast_loop_seconds ≡ 0
unfolding decision_window_start
fast_window now = omega arith

-- A window of the slow loop starts with one of the fast loop.
pub slow_window : (now : ℕ) → decision_window_start now slow_loop_seconds % fast_loop_seconds ≡ 0
unfolding decision_window_start
slow_window now = omega arith

module _ (P : List ActionRow → Type 0) (i : String) (updates : KeptByUpdates P i) where
  pub Keeps-set_action_status :
      (status : String) (code message : Option String)
      → Keeps P (set_action_status i status code message)
  unfolding set_action_status
  Keeps-set_action_status status code message = Keeps-bind P _ _ (Keeps-now P) (λ now.
      updates _
        (record { action_id = λ r. refl; idempotency_key = λ r. refl; columns = λ r. refl }))

  pub Keeps-update_action_result :
      (status : String) (code message : Option String)
      → Keeps P (update_action_result i status code message)
  unfolding update_action_result
  Keeps-update_action_result status code message = Keeps-bind P _ _ (Keeps-now P) (λ now.
      Keeps-bind P _ _ (Keeps-gets P _) (λ found.
        Keeps-bind P _ _
          (updates _
            (record { action_id = λ r. refl; idempotency_key = λ r. refl; columns = λ r. refl }))
          (λ _. Keeps-lift P _)))

  pub Keeps-schedule_retry :
      (n : ℕ) (code message : String) → Keeps P (schedule_retry i n code message)
  unfolding schedule_retry
  Keeps-schedule_retry n code message = Keeps-bind P _ _ (Keeps-now P) (λ now.
      updates _
        (record { action_id = λ r. refl; idempotency_key = λ r. refl; columns = λ r. refl }))

module _ (P : List ActionRow → Type 0) (a : DispatchAction)
    (updates : KeptByUpdates P a.action_id) where
  pub Keeps-mark_terminal :
      (status : String) (code message : Option String)
      → Keeps P (mark_terminal a status code message)
  unfolding mark_terminal
  Keeps-mark_terminal status code message = Keeps-bind P _ _ (Keeps-now P) (λ now.
      updates _
        (record { action_id = λ r. refl; idempotency_key = λ r. refl; columns = λ r. refl }))

module _ (x : Externals) (P : List ActionRow → Type 0) (inserts : KeptByInserts x P) where
  pub Keeps-enqueue_action :
      (t w type : String) (p : Value) (ttl n : ℕ) (rollback : Option Value) (parent : Option String)
      → n % fast_loop_seconds ≡ 0
      → Keeps P (enqueue_action x t w type p ttl n rollback parent)
  unfolding enqueue_action pending_row deterministic_idempotency_key key_input
  Keeps-enqueue_action t w type p ttl n rollback parent window =
      Keeps-bind P _ _ (Keeps-now P)
        (λ now. Keeps-bind P _ _ (Keeps-uuid P) (λ uuid. inserts _ (refl, window)))

  module _ (a : DispatchAction) (updates : KeptByUpdates P a.action_id) where
    Keeps-rollback_with : (r : Option Value) → Keeps P (rollback_with x a r)
    Keeps-rollback_with none = Keeps-pure P tt
    Keeps-rollback_with (some payload) = Keeps-bind P _ _ (Keeps-now P) (λ now.
        Keeps-bind P _ _ (Keeps-enqueue_action _ _ _ _ _ _ _ _ (fast_window now))
          (λ _. Keeps-set_action_status P a.action_id updates _ _ _))

    pub Keeps-enqueue_rollback : Keeps P (enqueue_rollback x a)
    unfolding enqueue_rollback
    Keeps-enqueue_rollback = Keeps-rollback_with a.rollback_action_json
