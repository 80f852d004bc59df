-- ===== src/Control/Loops/Cooldown.antt =====
-- control/src/services/orchestrator.rs: when the fast and the slow loop leave the data base alone.
use quiltc.Prelude.{
  ℕ, ◌+◌, ◌<◌, String, ◌≡◌, refl, Bool, true, false, none, some, List, [], ◌∷◌, ok, lt→ltb, ltb,
  ◌&&◌, if◌then◌else◌, find,
}
use quiltc.Control.Json.{Value, json, string, number, Number}
use quiltc.Control.Rows.{
  PolicyTableRow, WorkloadObservation, NodeGroupObservation, OrchestratorIntent,
}
use quiltc.Control.World.{Externals, World, M, skip, ◌>>=◌}
use quiltc.Control.Codes.{platform_tenant_id, slow_loop_seconds}
use quiltc.Control.Actions.{enqueue_action}
use quiltc.Control.Actions.Key.{enqueue_action_twice}
use quiltc.Control.Loops.{key_eq, fast_step, slow_step, utilization}

-- For a workload with a policy and an intent, while the cooldown of the intent lasts, an
-- observation changes nothing, whatever it asks for: the world is left as it is.
pub fast_step_cooldown :
    (x : Externals) (groups : List NodeGroupObservation) (now n : ℕ) (obs : WorkloadObservation)
    (policy : PolicyTableRow) (intent : OrchestratorIntent) (w : World)
    → find (λ p. key_eq p.tenant_id p.workload_id obs.tenant_id obs.workload_id) w.db.policies
      ≡ some policy
    → find (λ i. key_eq i.tenant_id i.workload_id obs.tenant_id obs.workload_id) w.db.intents
      ≡ some intent
    → now < intent.updated_at + policy.cooldown_seconds
    → fast_step x groups now n obs w ≡ (ok tt, w)
unfolding fast_step ◌>>=◌
fast_step_cooldown x groups now n obs policy intent w p c h = rw (p, c, lt→ltb _ _ h) refl

abbrev queued_if :
    Externals → String → String → Value → String → String → ℕ → ℕ → Bool → Bool → M Unit
queued_if x tenant group payload up down ttl n b c =
    if b
    then enqueue_action x tenant group up payload ttl n none none
    else if c
    then enqueue_action x tenant group down payload ttl n none none
    else skip

queued_if_twice :
    (x : Externals) (t g : String) (p : Value) (up down : String) (ttl n : ℕ) (b c : Bool)
    (w : World)
    → (queued_if x t g p up down ttl n b c w).0 ≡ ok tt
    → (queued_if x t g p up down ttl n b c (queued_if x t g p up down ttl n b c w).1).1.db
      ≡ (queued_if x t g p up down ttl n b c w).1.db
unfolding ◌>>=◌
queued_if_twice x t g p up down ttl n true c w h =
    (enqueue_action_twice x t g up p ttl ttl n none none none none w h).1
queued_if_twice x t g p up down ttl n false true w h =
    (enqueue_action_twice x t g down p ttl ttl n none none none none w h).1
queued_if_twice x t g p up down ttl n false false w h = refl

-- If looking at a node group succeeds, looking at it again in the same decision window leaves the
-- data base alone, also if the first time queued an action.
slow_step_twice :
    (x : Externals) (n : ℕ) (g : NodeGroupObservation) (w : World)
    → (slow_step x n g w).0 ≡ ok tt
    → (slow_step x n g (slow_step x n g w).1).1.db ≡ (slow_step x n g w).1.db
unfolding slow_step
slow_step_twice x n g w h =
    queued_if_twice x platform_tenant_id g.node_group
      (json (("node_group", string g.node_group) ∷ ("delta_units", number (Number.pos_int 1)) ∷ []))
      "ScaleNodeGroupUp" "ScaleNodeGroupDown" slow_loop_seconds n
      (x.f_gt (utilization x g) (x.f_lit 80 2))
      (x.f_gt (x.f_lit 35 2) (utilization x g) && ltb 0 g.warm_ready) w h
