-- ===== src/Control/Tests/Steps.antt =====
-- control/src/services/orchestrator.rs: the theorems on process_action at concrete data.
use quiltc.Prelude.{◌⊎◌, inl, ◌≡◌, refl, none, some, [], ◌∷◌, ok, err}
use quiltc.Control.Json.{lookup, json}
use quiltc.Control.Rows.{ActionRow, DispatchAction, RuntimeOperation}
use quiltc.Control.World.{Request, World, gets}
use quiltc.Control.Codes.{
  rc_invalid_argument, rc_orch_ttl_expired, is_runtime_terminal_success,
  is_runtime_terminal_failure,
}
use quiltc.Control.Actions.{is_open, latency_ms, load_dispatch_candidates, dispatch_action}
use quiltc.Control.Actions.Unique.{HasRow}
use quiltc.Control.Plan.{trimmed}
use quiltc.Control.Dispatch.{is_expired, record_dispatch, process_action, run_dispatch_cycle}
use quiltc.Control.Dispatch.Requests.{IsFor, process_action_requests}
use quiltc.Control.Dispatch.Cycle.{run_dispatch_cycle-HasRow}
use quiltc.Control.Dispatch.Settled.{cycles, cycles-HasRow, started, unknown_status_strands}
use quiltc.Control.Dispatch.Steps.{expired_fails}
use quiltc.Control.Dispatch.Blocked.{invalid_payload_blocks_cycles}
use quiltc.Control.Tests.Data.{toy, config, row, action, world, late_world}

abbrev done_row : ActionRow
done_row = record row { status = "succeeded" }

abbrev done_world : World
done_world = record world { db = record world.db { actions = done_row ∷ [] } }

abbrev waiting_row : ActionRow
waiting_row = record row { next_retry_at = 2000 }

abbrev waiting_world : World
waiting_world = record world { db = record world.db { actions = waiting_row ∷ [] } }

cycles-HasRow_example : HasRow "a1" done_row (cycles toy config 3 done_world).db.actions
unfolding is_open
cycles-HasRow_example = cycles-HasRow toy config 3 done_world "a1" done_row (tt, tt) refl refl

run_dispatch_cycle-HasRow_example :
    HasRow "a1" waiting_row (run_dispatch_cycle toy config waiting_world).1.db.actions
unfolding is_open
run_dispatch_cycle-HasRow_example =
    run_dispatch_cycle-HasRow toy config waiting_world "a1" waiting_row (tt, tt) refl refl

abbrev odd_operation : RuntimeOperation
odd_operation = record {
  operation_id = "o1";
  operation_type = none;
  status = "paused";
  reason_code = none;
  reason_message = none;
}

unknown_status_strands_example :
    HasRow "a1"
      (started row odd_operation 1000)
      (cycles toy config 5 (record_dispatch action odd_operation world).1).db.actions
unfolding is_open is_runtime_terminal_success is_runtime_terminal_failure
unknown_status_strands_example =
    unknown_status_strands toy config 5 action odd_operation row world (tt, tt) refl refl refl

-- The action as the world's table gives it
abbrev loaded_action : DispatchAction
loaded_action = record action { payload_json = json [] }

invalid_payload_blocks_cycles_example :
    ((cycles toy config 7 world).db ≡ world.db)
    × ((cycles toy config 7 world).sent ≡ [])
    × ((run_dispatch_cycle toy config (cycles toy config 7 world)).0 ≡ err rc_invalid_argument)
unfolding is_expired trimmed lookup load_dispatch_candidates dispatch_action is_open gets
invalid_payload_blocks_cycles_example =
    invalid_payload_blocks_cycles toy config 7 loaded_action world refl refl (inl (refl, inl refl))
      (λ k l. refl) (λ k l. ([], refl))

expired_fails_example :
    ((process_action toy config action late_world).0 ≡ ok tt)
    × ((process_action toy config action late_world).1.sent ≡ [])
    × HasRow "a1"
        (record row {
          status = "failed";
          terminal_status = some "failed";
          reason_code = some rc_orch_ttl_expired;
          reason_message = some "TTL expired before completion";
          terminal_at = some 5000;
          total_latency_ms = some (latency_ms 5000 995);
          updated_at = 5000;
        })
        (process_action toy config action late_world).1.db.actions
unfolding is_expired
expired_fails_example = expired_fails toy config action row late_world refl refl refl

process_action_requests_example :
    ((process_action toy config action world).1.sent ≡ [])
    ⊎ ((r : Request) × IsFor action r × ((process_action toy config action world).1.sent ≡ r ∷ []))
process_action_requests_example = process_action_requests toy config action world
