-- ===== src/Control/Loops/Writes.antt =====
-- control/src/services/orchestrator.rs: the fast and the slow loop only insert actions.
use quiltc.Prelude.{◌≡◌, ◌%◌, ℕ, Option, none, some, List, ltb, ◌&&◌}
use quiltc.Control.Rows.{
  ActionRow, WorkloadPolicyRow, WorkloadObservation, NodeGroupObservation, OrchestratorIntent,
}
use quiltc.Control.World.{Externals, modify}
use quiltc.Control.World.Keeps.{
  Keeps, Keeps-pure, Keeps-bind, Keeps-now, Keeps-gets, Keeps-if, Keeps-for_each, Keeps-transaction,
}
use quiltc.Control.Actions.Writes.{fast_window, slow_window, KeptByInserts, Keeps-enqueue_action}
use quiltc.Control.Codes.{fast_loop_seconds}
use quiltc.Control.Decide.{decide, make_intent, is_held}
use quiltc.Control.Loops.{
  load_policy, load_slo, load_current_intent, list_workload_observations,
  list_node_group_observations, upsert_intent, publish, with_policy, fast_step, run_fast_loop_tx,
  run_fast_loop, utilization, slow_step, run_slow_loop_tx, run_slow_loop,
}

module _ (x : Externals) (P : List ActionRow → Type 0) (inserts : KeptByInserts x P) where
  Keeps-upsert_intent : (i : OrchestratorIntent) → Keeps P (upsert_intent i)
  unfolding upsert_intent modify
  Keeps-upsert_intent i = record { at = λ w h. h }

  Keeps-publish :
      (policy : WorkloadPolicyRow) (i : OrchestratorIntent) (n : ℕ)
      → n % fast_loop_seconds ≡ 0
      → Keeps P (publish x policy i n)
  unfolding publish
  Keeps-publish policy i n window = Keeps-bind P _ _ (Keeps-upsert_intent i) λ _.
      Keeps-bind P _ _ (Keeps-enqueue_action x P inserts _ _ _ _ _ _ _ _ window) λ _.
        Keeps-bind P _ _
          (Keeps-for_each P _ policy.target_container_ids
            (λ c. Keeps-enqueue_action x P inserts _ _ _ _ _ _ _ _ window))
          λ _. Keeps-enqueue_action x P inserts _ _ _ _ _ _ _ _ window

  Keeps-with_policy :
      (groups : List NodeGroupObservation) (now n : ℕ) (obs : WorkloadObservation)
      (p : Option WorkloadPolicyRow)
      → n % fast_loop_seconds ≡ 0
      → Keeps P (with_policy x groups now n obs p)
  unfolding load_slo load_current_intent
  Keeps-with_policy groups now n obs none window = Keeps-pure P tt
  Keeps-with_policy groups now n obs (some policy) window = Keeps-bind P _ _ (Keeps-gets P _) λ slo.
      Keeps-bind P _ _ (Keeps-gets P _) λ current.
        Keeps-if P
          (is_held x policy
            (make_intent x policy obs groups (decide x policy obs slo) now).target_concurrency now
            current)
          _ _ (Keeps-pure P tt) (Keeps-publish policy _ n window)

  Keeps-fast_step :
      (groups : List NodeGroupObservation) (now n : ℕ) (obs : WorkloadObservation)
      → n % fast_loop_seconds ≡ 0
      → Keeps P (fast_step x groups now n obs)
  unfolding fast_step load_policy
  Keeps-fast_step groups now n obs window =
      Keeps-bind P _ _ (Keeps-gets P _) (λ p. Keeps-with_policy groups now n obs p window)

  pub Keeps-run_fast_loop : Keeps P (run_fast_loop x)
  unfolding run_fast_loop run_fast_loop_tx list_workload_observations list_node_group_observations
  Keeps-run_fast_loop = Keeps-transaction P _ (
      Keeps-bind P _ _ (Keeps-gets P _) λ observations. Keeps-bind P _ _ (Keeps-gets P _) λ groups.
        Keeps-bind P _ _ (Keeps-now P) λ now.
          Keeps-for_each P _ observations
            (λ obs. Keeps-fast_step groups now _ obs (fast_window now)))

  Keeps-slow_step :
      (n : ℕ) (g : NodeGroupObservation) → n % fast_loop_seconds ≡ 0 → Keeps P (slow_step x n g)
  unfolding slow_step
  Keeps-slow_step n g window =
      Keeps-if P (x.f_gt (utilization x g) (x.f_lit 80 2)) _ _
        (Keeps-enqueue_action x P inserts _ _ _ _ _ _ _ _ window)
        (Keeps-if P (x.f_gt (x.f_lit 35 2) (utilization x g) && ltb 0 g.warm_ready) _ _
          (Keeps-enqueue_action x P inserts _ _ _ _ _ _ _ _ window) (Keeps-pure P tt))

  pub Keeps-run_slow_loop : Keeps P (run_slow_loop x)
  unfolding run_slow_loop run_slow_loop_tx list_node_group_observations
  Keeps-run_slow_loop = Keeps-transaction P _ (
      Keeps-bind P _ _ (Keeps-gets P _) λ groups.
        Keeps-bind P _ _ (Keeps-now P)
          λ now. Keeps-for_each P _ groups (λ g. Keeps-slow_step _ g (slow_window now)))
