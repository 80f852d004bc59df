-- ===== src/Control/Tests/Writes.antt =====
-- control/src: the theorems on the API, the loops and the table of actions at concrete data.
use Prim.Native.String.{◌++◌}
use quiltc.Prelude.{◌*◌, ◌≤◌, ◌≡◌, refl, none, some, length, find, [], ◌∷◌, ok, arith}
use quiltc.Prelude.Text.{bar, trim}
use quiltc.Control.Json.{null}
use quiltc.Control.World.{
  ◌>>=◌, World, modify, transaction, for_each, now_unix_seconds, new_uuid, gets, lift,
}
use quiltc.Control.Actions.{
  enqueue_action, pending_row, deterministic_idempotency_key, key_input, insert_action,
  decision_window_start,
}
use quiltc.Control.Actions.Key.{enqueue_action_twice, enqueue_dropped_by_other_tenant}
use quiltc.Control.Actions.Derived.{IsDistinct, AreDerived}
use quiltc.Control.Decide.{decide, make_intent}
use quiltc.Control.Decide.Bounds.{make_intent_bounds}
use quiltc.Control.Loops.{
  load_policy, key_eq, run_fast_loop, run_slow_loop, run_slow_loop_tx, slow_step,
  list_node_group_observations, utilization,
}
use quiltc.Control.Loops.Held.{run_fast_loop_cooldown}
use quiltc.Control.Api.{upsert_workload_policy, ingest_observations}
use quiltc.Control.Api.Policies.{load_policy-upsert_workload_policy, loaded}
use quiltc.Control.System.{empty_db, start, next, post_observations, slow_loop, Reach-IsDistinct}
use quiltc.Control.Tests.Data.{
  toy, config, request, policy, policy_row, observation, node_group, intent, world,
}

-- Two node groups that are short of capacity.
abbrev observed : World
observed =
    (ingest_observations
      (record {
        workloads = [];
        node_groups = node_group ∷ record node_group { node_group = "h" } ∷ [];
      })
      (record world { db = empty_db })).1

-- What the slow loop queues for them: two rows.
abbrev scaled : World
scaled = (run_slow_loop toy observed).1

Reach-IsDistinct_example : AreDerived toy scaled.db.actions × IsDistinct scaled.db.actions
Reach-IsDistinct_example = Reach-IsDistinct {x = toy} {cfg = config} (
    next
      (next (start world) (
        post_observations (record world { db = empty_db })
          (record {
            workloads = [];
            node_groups = node_group ∷ record node_group { node_group = "h" } ∷ [];
          })))
      (slow_loop observed))

scaled_rows : length scaled.db.actions ≡ 2
unfolding ingest_observations run_slow_loop run_slow_loop_tx slow_step list_node_group_observations
    utilization enqueue_action insert_action pending_row deterministic_idempotency_key key_input
    decision_window_start ◌>>=◌ modify transaction for_each now_unix_seconds new_uuid gets lift
scaled_rows = refl

load_policy-upsert_workload_policy_example :
    (load_policy toy "t" "w" (upsert_workload_policy toy "t" "w" request world).1).0
    ≡ ok (some (loaded request))
unfolding trim
load_policy-upsert_workload_policy_example =
    load_policy-upsert_workload_policy toy "t" "w" "t" "w" request world refl refl

make_intent_bounds_example :
    let i =
      make_intent toy policy_row observation
        (node_group ∷ [])
        (decide toy policy_row observation none)
        1000 in
    (1 ≤ i.target_concurrency)
    × (i.target_concurrency ≤ 12)
    × (64 ≤ i.burst_mem_mb)
    × (i.burst_mem_mb ≤ 2 * 256)
make_intent_bounds_example =
    make_intent_bounds toy policy_row observation (node_group ∷ []) none 1000 (omega arith)
      (omega arith) (omega arith) (omega arith)

enqueue_action_twice_example :
    ((enqueue_action toy "t" "w" "ScaleNodeGroupUp" null 30 990 none none
        (enqueue_action toy "t" "w" "ScaleNodeGroupUp" null 60 990 none none world).1).0
      ≡ ok tt)
    × ((enqueue_action toy "t" "w" "ScaleNodeGroupUp" null 30 990 none none
          (enqueue_action toy "t" "w" "ScaleNodeGroupUp" null 60 990 none none world).1).1.db
        ≡ (enqueue_action toy "t" "w" "ScaleNodeGroupUp" null 60 990 none none world).1.db)
unfolding enqueue_action ◌>>=◌ pending_row deterministic_idempotency_key key_input
enqueue_action_twice_example =
    enqueue_action_twice toy "t" "w" "ScaleNodeGroupUp" null 60 30 990 none none none none world
      refl

enqueue_dropped_by_other_tenant_example :
    ((enqueue_action toy
        ("a" ++ bar "b")
        "c"
        "SetPoolTarget"
        null
        60
        990
        none
        none
        (enqueue_action toy "a" ("b" ++ bar "c") "SetPoolTarget" null 60 990 none none world).1).0
      ≡ ok tt)
    × ((enqueue_action toy
          ("a" ++ bar "b")
          "c"
          "SetPoolTarget"
          null
          60
          990
          none
          none
          (enqueue_action toy "a"
            ("b" ++ bar "c")
            "SetPoolTarget"
            null
            60
            990
            none
            none
            world).1).1.db
        ≡ (enqueue_action toy "a"
            ("b" ++ bar "c")
            "SetPoolTarget"
            null
            60
            990
            none
            none
            world).1.db)
unfolding enqueue_action ◌>>=◌ pending_row deterministic_idempotency_key key_input
enqueue_dropped_by_other_tenant_example =
    enqueue_dropped_by_other_tenant toy "a" "b" "c" "SetPoolTarget" null 60 990 none none world refl

-- Two workloads are observed, of which one has an intent.
abbrev busy : World
busy =
    (ingest_observations
      (record {
        workloads = observation ∷ record observation { workload_id = "v" } ∷ [];
        node_groups = [];
      })
      world).1

run_fast_loop_cooldown_example :
    find (λ i. key_eq i.tenant_id i.workload_id "t" "w") (run_fast_loop toy busy).1.db.intents
    ≡ some intent
unfolding ingest_observations ◌>>=◌ modify transaction for_each now_unix_seconds
run_fast_loop_cooldown_example =
    run_fast_loop_cooldown toy "t" "w" policy intent busy refl refl (omega arith)
