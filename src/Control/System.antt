-- ===== src/Control/System.antt =====
-- control/src/main.rs and control/src/services/orchestrator.rs, start_loops: the control plane as
-- a step relation. The three loops and the API requests take turns in any order, each to its end,
-- and between them the environment's later answers (clock, identifiers, replies) are arbitrary.
use quiltc.Prelude.{ℕ, String, Option, List, []}
use quiltc.Control.Rows.{
  ActionRow, WorkloadPolicyRequest, WorkloadSloRequest, ObservationIngestRequest, ExecutionConfig,
}
use quiltc.Control.World.{Externals, Db, Reply, World}
use quiltc.Control.World.Keeps.{
  Keeps, Keeps-bind, Keeps-now, Keeps-modify, Keeps-if, Keeps-bail, Keeps-transaction,
  Keeps-for_each,
}
use quiltc.Control.Actions.{update_action_result}
use quiltc.Control.Actions.Writes.{KeptByUpdates, KeptByInserts, Keeps-update_action_result}
use quiltc.Control.Actions.Derived.{
  IsDistinct, AreDerived, AreDerived-updates, AreDerived-inserts, derived-IsDistinct,
}
use quiltc.Control.Actions.Unique.{IsKeyed, IsKeyed-updates, IsKeyed-inserts}
use quiltc.Control.Loops.{run_fast_loop, run_slow_loop}
use quiltc.Control.Loops.Writes.{Keeps-run_fast_loop, Keeps-run_slow_loop}
use quiltc.Control.Dispatch.{run_dispatch_cycle}
use quiltc.Control.Dispatch.Cycle.{Keeps-run_dispatch_cycle}
use quiltc.Control.Api.{upsert_workload_policy, upsert_workload_slo, ingest_observations}

abbrev pub empty_db : Db
empty_db = record {
  policies = [];
  slos = [];
  observations = [];
  groups = [];
  intents = [];
  actions = [];
}

pub data Step (x : Externals) (cfg : ExecutionConfig) : World → World → Type 0 where
  environment :
      (w : World) (clock : ℕ → ℕ) (uuids : ℕ → String) (replies : ℕ → Option Reply)
      → Step x cfg w (record w { clock = clock; uuids = uuids; replies = replies })
  fast_loop : (w : World) → Step x cfg w (run_fast_loop x w).1
  slow_loop : (w : World) → Step x cfg w (run_slow_loop x w).1
  dispatch_loop : (w : World) → Step x cfg w (run_dispatch_cycle x cfg w).1
  put_policy :
      (w : World) (t i : String) (req : WorkloadPolicyRequest)
      → Step x cfg w (upsert_workload_policy x t i req w).1
  put_slo :
      (w : World) (t i : String) (req : WorkloadSloRequest)
      → Step x cfg w (upsert_workload_slo t i req w).1
  post_observations :
      (w : World) (req : ObservationIngestRequest) → Step x cfg w (ingest_observations req w).1
  post_result :
      (w : World) (i status : String) (code message : Option String)
      → Step x cfg w (update_action_result i status code message w).1

-- The worlds that a fresh data base leads to.
pub data Reach (x : Externals) (cfg : ExecutionConfig) : World → Type 0 where
  start : (w : World) → Reach x cfg (record w { db = empty_db })
  next : {w v : World} → Reach x cfg w → Step x cfg w v → Reach x cfg v

module _ (P : List ActionRow → Type 0) (x : Externals) where
  Keeps-upsert_workload_policy :
      (t i : String) (req : WorkloadPolicyRequest) → Keeps P (upsert_workload_policy x t i req)
  unfolding upsert_workload_policy
  Keeps-upsert_workload_policy t i req =
      Keeps-if P _ _ _ (Keeps-bail P _)
        (Keeps-bind P _ _ (Keeps-now P) (λ now. Keeps-modify P _ (λ d h. h)))

module _ (P : List ActionRow → Type 0) where
  Keeps-upsert_workload_slo :
      (t i : String) (req : WorkloadSloRequest) → Keeps P (upsert_workload_slo t i req)
  unfolding upsert_workload_slo
  Keeps-upsert_workload_slo t i req =
      Keeps-bind P _ _ (Keeps-now P) (λ now. Keeps-modify P _ (λ d h. h))

  Keeps-ingest_observations : (req : ObservationIngestRequest) → Keeps P (ingest_observations req)
  unfolding ingest_observations
  Keeps-ingest_observations req = Keeps-bind P _ _ (Keeps-now P) λ now. Keeps-transaction P _ (
      Keeps-bind P _ _ (Keeps-for_each P _ req.workloads (λ w. Keeps-modify P _ (λ d h. h)))
        λ _. Keeps-for_each P _ req.node_groups (λ n. Keeps-modify P _ (λ d h. h)))

-- What the updates of any action and the insertions keep, every step keeps.
Step-keeps :
    {x : Externals} {cfg : ExecutionConfig} {w v : World} (P : List ActionRow → Type 0)
    → ((i : String) → KeptByUpdates P i)
    → KeptByInserts x P
    → Step x cfg w v
    → P w.db.actions
    → P v.db.actions
Step-keeps P up ins (environment w clock uuids replies) h = h
Step-keeps {x} P up ins (fast_loop w) h = (Keeps-run_fast_loop x P ins).at w h
Step-keeps {x} P up ins (slow_loop w) h = (Keeps-run_slow_loop x P ins).at w h
Step-keeps {x} {cfg} P up ins (dispatch_loop w) h = (Keeps-run_dispatch_cycle x cfg P up ins).at w h
Step-keeps {x} P up ins (put_policy w t i req) h = (Keeps-upsert_workload_policy P x t i req).at w h
Step-keeps P up ins (put_slo w t i req) h = (Keeps-upsert_workload_slo P t i req).at w h
Step-keeps P up ins (post_observations w req) h = (Keeps-ingest_observations P req).at w h
Step-keeps P up ins (post_result w i status code message) h =
    (Keeps-update_action_result P i (up i) status code message).at w h

Reach-IsKeyed :
    {x : Externals} {cfg : ExecutionConfig} {w : World} → Reach x cfg w → IsKeyed w.db.actions
Reach-IsKeyed (start w) = tt
Reach-IsKeyed {x} (next r s) =
    Step-keeps IsKeyed IsKeyed-updates (IsKeyed-inserts x) s (Reach-IsKeyed r)

Reach-AreDerived :
    {x : Externals} {cfg : ExecutionConfig} {w : World} → Reach x cfg w → AreDerived x w.db.actions
Reach-AreDerived (start w) = tt
Reach-AreDerived {x} (next r s) =
    Step-keeps (AreDerived x) (AreDerived-updates x) (AreDerived-inserts x) s (Reach-AreDerived r)

-- From an empty data base, whatever the loops, the API requests and the environment do in
-- whatever order: each action's key is the hash of its tenant, its workload, its type, its payload
-- and its decision window, between bars; each window starts at a multiple of five seconds; and no
-- two actions in the table agree in these five.
pub Reach-IsDistinct :
    {x : Externals} {cfg : ExecutionConfig} {w : World}
    → Reach x cfg w
    → AreDerived x w.db.actions × IsDistinct w.db.actions
Reach-IsDistinct {x} r =
    (Reach-AreDerived r, derived-IsDistinct x _ (Reach-AreDerived r) (Reach-IsKeyed r))
