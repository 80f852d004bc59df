-- ===== src/Control/Api/Handlers.antt =====
-- control/src/api/orchestrator.rs: the handlers of the requests other than the listing of actions.
use quiltc.Prelude.{String, Option, List}
use quiltc.Control.Rows.{
  WorkloadPolicyRequest, WorkloadSloRequest, ObservationIngestRequest, OrchestratorIntent,
}
use quiltc.Control.World.{Externals, M}
use quiltc.Control.Actions.{update_action_result}
use quiltc.Control.Loops.{run_fast_loop, run_slow_loop}
use quiltc.Control.Api.{
  Response, accepted, okay, handler, upsert_workload_policy, upsert_workload_slo,
  ingest_observations, list_intents,
}

abbrev when_accepted : {A : Type 0} → A → Response Unit
when_accepted a = accepted

unfoldable pub upsert_workload_slo_handler :
    String → String → WorkloadSloRequest → M (Response Unit)
upsert_workload_slo_handler tenant workload req =
    handler (upsert_workload_slo tenant workload req) when_accepted

unfoldable pub ingest_observations_handler : ObservationIngestRequest → M (Response Unit)
ingest_observations_handler req = handler (ingest_observations req) when_accepted

unfoldable pub list_intents_handler : M (Response (List OrchestratorIntent))
list_intents_handler = handler list_intents okay

unfoldable pub update_action_result_handler :
    String → String → Option String → Option String → M (Response Unit)
update_action_result_handler action_id status code message =
    handler (update_action_result action_id status code message) okay

module _ (x : Externals) where
  unfoldable pub upsert_workload_policy_handler :
      String → String → WorkloadPolicyRequest → M (Response Unit)
  upsert_workload_policy_handler tenant workload req =
      handler (upsert_workload_policy x tenant workload req) when_accepted

  unfoldable pub trigger_fast_loop : M (Response Unit)
  trigger_fast_loop = handler (run_fast_loop x) when_accepted

  unfoldable pub trigger_slow_loop : M (Response Unit)
  trigger_slow_loop = handler (run_slow_loop x) when_accepted
