-- ===== src/Control/Dispatch/Steps.antt =====
-- control/src/services/orchestrator.rs: the outcome of process_action on its branches.
use quiltc.Prelude.{
  suc, String, ◌≡◌, refl, Bool, true, false, ◌||◌, Option, none, some, ok, str_eq, any,
}
use quiltc.Control.Rows.{ActionRow, DispatchAction, ExecutionConfig}
use quiltc.Control.World.{Externals, World, ◌>>=◌}
use quiltc.Control.Codes.{rc_orch_ttl_expired, rc_orch_dependency_unavailable, platform_tenant_id}
use quiltc.Control.Actions.{
  owns, latency_ms, mark_terminal, enqueue_rollback, workload_ownership_valid,
}
use quiltc.Control.Actions.Unique.{HasRow, HasRow-update_self}
use quiltc.Control.Dispatch.{is_expired, poll_or_submit, process_action, submit}

-- Whether an action is still to be submitted: it is pending, or has no operation to poll.
abbrev pub is_unsubmitted : DispatchAction → Bool
is_unsubmitted a = elim a.runtime_operation_id [ none ↦ true | some i ↦ str_eq a.status "pending" ]

abbrev pub is_owned : DispatchAction → World → Bool
is_owned a w =
    any (owns a.tenant_id a.workload_id) w.db.policies || str_eq a.tenant_id platform_tenant_id

abbrev read_clock : World → World
read_clock w = record w { reads = suc w.reads }

module _ (x : Externals) (cfg : ExecutionConfig) (a : DispatchAction) (w : World)
    (live : is_expired (w.clock w.reads) a ≡ false) (fresh : is_unsubmitted a ≡ true) where
  pub process_action-submit : process_action x cfg a w ≡ submit x cfg a (read_clock w)
  unfolding process_action ◌>>=◌
  process_action-submit = rw live (go a.runtime_operation_id fresh)
    where
      go :
          (o : Option String)
          → elim o [ none ↦ true | some i ↦ str_eq a.status "pending" ] ≡ true
          → poll_or_submit x cfg a o (read_clock w) ≡ submit x cfg a (read_clock w)
      go none h = refl
      go (some i) h = rw h refl

-- An action whose row is in the table, which is not expired and not yet submitted and whose
-- workload has no policy, fails, and no request is sent for it. (The platform's own tenant is
-- exempt.)
unknown_owner_fails :
    (x : Externals) (cfg : ExecutionConfig) (a : DispatchAction) (r : ActionRow) (w : World)
    → is_expired (w.clock w.reads) a ≡ false
    → is_unsubmitted a ≡ true
    → is_owned a w ≡ false
    → HasRow a.action_id r w.db.actions
    → ((process_action x cfg a w).1.sent ≡ w.sent)
      × HasRow a.action_id
          (record r {
            status = "failed";
            terminal_status = some "failed";
            reason_code = some rc_orch_dependency_unavailable;
            reason_message = some "Cross-tenant or unknown workload ownership";
            terminal_at = some (w.clock (suc w.reads));
            total_latency_ms = some (latency_ms (w.clock (suc w.reads)) a.created_at);
            updated_at = w.clock (suc w.reads);
          })
          (process_action x cfg a w).1.db.actions
unfolding ◌>>=◌
unknown_owner_fails x cfg a r w live fresh foreign h =
    rw (process_action-submit x cfg a w live fresh) (
      unfold submit workload_ownership_valid mark_terminal in
      rw foreign (
        refl,
        HasRow-update_self _
            (record { action_id = λ r. refl; idempotency_key = λ r. refl; columns = λ r. refl })
            a.action_id r w.db.actions h,
      ))

-- An action past its time to live whose row is in the table, with nothing to roll back, fails as
-- expired whatever its status, and no request is sent for it.
pub expired_fails :
    (x : Externals) (cfg : ExecutionConfig) (a : DispatchAction) (r : ActionRow) (w : World)
    → is_expired (w.clock w.reads) a ≡ true
    → a.rollback_action_json ≡ none
    → HasRow a.action_id r w.db.actions
    → ((process_action x cfg a w).0 ≡ ok tt)
      × ((process_action x cfg a w).1.sent ≡ w.sent)
      × HasRow a.action_id
          (record r {
            status = "failed";
            terminal_status = some "failed";
            reason_code = some rc_orch_ttl_expired;
            reason_message = some "TTL expired before completion";
            terminal_at = some (w.clock (suc w.reads));
            total_latency_ms = some (latency_ms (w.clock (suc w.reads)) a.created_at);
            updated_at = w.clock (suc w.reads);
          })
          (process_action x cfg a w).1.db.actions
unfolding process_action mark_terminal enqueue_rollback ◌>>=◌
expired_fails x cfg a r w late plain h =
    rw (late, plain)
      (
        refl,
        refl,
        HasRow-update_self _
            (record { action_id = λ r. refl; idempotency_key = λ r. refl; columns = λ r. refl })
            a.action_id r w.db.actions h,
      )
