-- ===== src/Control/Loops/Held.antt =====
-- control/src/services/orchestrator.rs: an intent stays through the fast loop while its cooldown
-- lasts.
use quiltc.Prelude.{
  ℕ, suc, map, ◌+◌, ◌-◌, ◌%◌, ◌<◌, String, ◌≡◌, ◌∙◌, Bool, true, false, Option, none, some, List,
  [], ◌∷◌, Res, ok, err, if◌then◌else◌, Bool-cases, inl, inr, find, find-upsert,
}
use quiltc.Control.Json.{Value}
use quiltc.Control.Rows.{
  PolicyTableRow, WorkloadPolicyRow, WorkloadObservation, NodeGroupObservation, OrchestratorIntent,
  ActionRow,
}
use quiltc.Control.World.{
  Externals, Db, World, M, pure, gets, modify, lift, now_unix_seconds, new_uuid, for_each,
  transaction, commit_or_roll_back, resume, ◌>>=◌,
}
use quiltc.Control.Actions.{insert_action, enqueue_action, decision_window_start}
use quiltc.Control.Decide.{decide, make_intent, is_held}
use quiltc.Control.Loops.{
  key_eq, load_policy, load_slo, load_current_intent, list_workload_observations,
  list_node_group_observations, upsert_intent, publish, with_policy, fast_step, run_fast_loop_tx,
  run_fast_loop,
}
use quiltc.Control.Loops.Cooldown.{fast_step_cooldown}
use quiltc.Control.Api.Policies.{key_eq_iff, key_eq-cong, key_eq_join}

-- A predicate on the data base that an action keeps, whatever its outcome
record Stays {A : Type 0} (P : Db → Type 0) (m : M A) : Type 0 where
  at : (w : World) → P w.db → P (m w).1.db

module _ (P : Db → Type 0) {A : Type 0} where
  Stays-pure : (a : A) → Stays P (pure a)
  unfolding pure
  Stays-pure a = record { at = λ w h. h }

  Stays-gets : (f : Db → A) → Stays P (gets f)
  unfolding gets
  Stays-gets f = record { at = λ w h. h }

  Stays-lift : (r : Res A) → Stays P (lift r)
  unfolding lift
  Stays-lift r = record { at = λ w h. h }

  Stays-if : (b : Bool) (m n : M A) → Stays P m → Stays P n → Stays P (if b then m else n)
  Stays-if true m n k l = k
  Stays-if false m n k l = l

  after_transaction : (m : M A) (w : World) → P w.db → P (m w).1.db → P (transaction m w).1.db
  unfolding transaction
  after_transaction m w h k = ended (m w).0 (m w).1 k
    where
      ended : (r : Res A) (v : World) → P v.db → P (commit_or_roll_back w r v).1.db
      ended (ok a) v k = k
      ended (err e) v k = h

module _ (P : Db → Type 0) {A B : Type 0} where
  Stays-bind : (m : M A) (f : A → M B) → Stays P m → ((a : A) → Stays P (f a)) → Stays P (m >>= f)
  unfolding ◌>>=◌
  Stays-bind m f k l = record { at = λ w h. go (m w).0 (m w).1 (k.at w h) }
    where
      go : (r : Res A) (v : World) → P v.db → P (resume r v f).1.db
      go (ok a) v h = (l a).at v h
      go (err e) v h = h

module _ (P : Db → Type 0) where
  Stays-now : Stays P now_unix_seconds
  unfolding now_unix_seconds
  Stays-now = record { at = λ w h. h }

  Stays-uuid : Stays P new_uuid
  unfolding new_uuid
  Stays-uuid = record { at = λ w h. h }

  Stays-for_each :
      {A : Type 0} (f : A → M Unit) (xs : List A)
      → ((a : A) → Stays P (f a))
      → Stays P (for_each f xs)
  unfolding for_each
  Stays-for_each f [] k = Stays-pure P tt
  Stays-for_each f (x ∷ xs) k =
      Stays-bind P (f x) (λ _. for_each f xs) (k x) (λ _. Stays-for_each f xs k)

module _ (t workload : String) (policy : PolicyTableRow) (intent : OrchestratorIntent) where
  -- The workload's policy and its intent are these.
  abbrev Holds : Db → Type 0
  Holds d =
      (find (λ p. key_eq p.tenant_id p.workload_id t workload) d.policies ≡ some policy)
      × (find (λ i. key_eq i.tenant_id i.workload_id t workload) d.intents ≡ some intent)

  insert_action-Holds : (row : ActionRow) → Stays Holds (insert_action row)
  unfolding insert_action modify
  insert_action-Holds row =
      Stays-bind Holds _ _ (Stays-gets Holds _)
        (λ rows. Stays-bind Holds _ _ (Stays-lift Holds _) (λ rows'. record { at = λ w h. h }))

  module _ (x : Externals) where
    enqueue_action-Holds :
        (tenant w type : String) (p : Value) (ttl n : ℕ) (rollback : Option Value)
        (parent : Option String)
        → Stays Holds (enqueue_action x tenant w type p ttl n rollback parent)
    unfolding enqueue_action
    enqueue_action-Holds tenant w type p ttl n rollback parent =
        Stays-bind Holds _ _ (Stays-now Holds)
          (λ now. Stays-bind Holds _ _ (Stays-uuid Holds) (λ uuid. insert_action-Holds _))

    -- Another workload's intent
    upsert_intent-Holds :
        (i : OrchestratorIntent)
        → key_eq i.tenant_id i.workload_id t workload ≡ false
        → Stays Holds (upsert_intent i)
    unfolding upsert_intent modify
    upsert_intent-Holds i other = record {
      at = λ w h. (
        h.0,
        find-upsert (λ j. key_eq j.tenant_id j.workload_id t workload)
              (λ j. key_eq j.tenant_id j.workload_id i.tenant_id i.workload_id) i w.db.intents
              (λ a e. key_eq-cong a.tenant_id a.workload_id i.tenant_id i.workload_id t workload e)
              (λ a e o.
                key_eq_join a.tenant_id a.workload_id i.tenant_id i.workload_id t workload e o)
            ∙ rw other h.1,
      );
    }

    publish-Holds :
        (p : WorkloadPolicyRow) (i : OrchestratorIntent) (n : ℕ)
        → key_eq i.tenant_id i.workload_id t workload ≡ false
        → Stays Holds (publish x p i n)
    unfolding publish
    publish-Holds p i n other = Stays-bind Holds _ _ (upsert_intent-Holds i other) λ _.
        Stays-bind Holds _ _ (enqueue_action-Holds _ _ _ _ _ _ _ _) λ _.
          Stays-bind Holds _ _
            (Stays-for_each Holds _ p.target_container_ids
              (λ c. enqueue_action-Holds _ _ _ _ _ _ _ _))
            λ _. enqueue_action-Holds _ _ _ _ _ _ _ _

    with_policy-Holds :
        (groups : List NodeGroupObservation) (now n : ℕ) (obs : WorkloadObservation)
        (p : Option WorkloadPolicyRow)
        → key_eq obs.tenant_id obs.workload_id t workload ≡ false
        → Stays Holds (with_policy x groups now n obs p)
    unfolding load_slo load_current_intent make_intent
    with_policy-Holds groups now n obs none other = Stays-pure Holds tt
    with_policy-Holds groups now n obs (some p) other =
        Stays-bind Holds _ _ (Stays-gets Holds _) λ slo.
          Stays-bind Holds _ _ (Stays-gets Holds _) λ current.
            Stays-if Holds
              (is_held x p (make_intent x p obs groups (decide x p obs slo) now).target_concurrency
                now current)
              _ _ (Stays-pure Holds tt) (publish-Holds p _ n other)

    other-Holds :
        (groups : List NodeGroupObservation) (now n : ℕ) (obs : WorkloadObservation)
        → key_eq obs.tenant_id obs.workload_id t workload ≡ false
        → Stays Holds (fast_step x groups now n obs)
    unfolding fast_step load_policy
    other-Holds groups now n obs other =
        Stays-bind Holds _ _ (Stays-gets Holds _) (λ p. with_policy-Holds groups now n obs p other)

    module _ (now : ℕ) (cooling : now < intent.updated_at + policy.cooldown_seconds) where
      own-Holds :
          (groups : List NodeGroupObservation) (n : ℕ) (obs : WorkloadObservation)
          → key_eq obs.tenant_id obs.workload_id t workload ≡ true
          → Stays Holds (fast_step x groups now n obs)
      own-Holds groups n obs e =
          let (tenants, workloads) = key_eq_iff obs.tenant_id obs.workload_id t workload e in
          record {
            at = λ w h.
                let same : fast_step x groups now n obs w ≡ (ok tt, w) =
                  fast_step_cooldown x groups now n obs policy intent w
                    (rw (tenants, workloads) h.0) (rw (tenants, workloads) h.1) cooling in
                rw same h;
          }

      fast_step-Holds :
          (groups : List NodeGroupObservation) (n : ℕ) (obs : WorkloadObservation)
          → Stays Holds (fast_step x groups now n obs)
      fast_step-Holds groups n obs =
          elim (Bool-cases (key_eq obs.tenant_id obs.workload_id t workload)) [
            | inl e ↦ own-Holds groups n obs e
            | inr e ↦ other-Holds groups now n obs e
          ]

-- While the cooldown of a workload's intent lasts at the clock reading of a run of the fast loop,
-- the run leaves that workload's intent as it is, whatever the observations of this workload and
-- of the others are, and whether or not the run fails.
pub run_fast_loop_cooldown :
    (x : Externals) (t workload : String) (policy : PolicyTableRow) (intent : OrchestratorIntent)
    (w : World)
    → find (λ p. key_eq p.tenant_id p.workload_id t workload) w.db.policies ≡ some policy
    → find (λ i. key_eq i.tenant_id i.workload_id t workload) w.db.intents ≡ some intent
    → w.clock w.reads < intent.updated_at + policy.cooldown_seconds
    → find (λ i. key_eq i.tenant_id i.workload_id t workload) (run_fast_loop x w).1.db.intents
      ≡ some intent
unfolding run_fast_loop run_fast_loop_tx list_workload_observations list_node_group_observations
    decision_window_start gets now_unix_seconds ◌>>=◌
run_fast_loop_cooldown x t workload policy intent w p i cooling =
    let groups = map (λ r. r.observation) w.db.groups in
    let now = w.clock w.reads in
    let P : Db → Type 0 = Holds t workload policy intent in
    let steps =
      (Stays-for_each P (fast_step x groups now (now - now % 5))
          (map (λ r. r.observation) w.db.observations)
          (λ obs. fast_step-Holds t workload policy intent x now cooling groups _ obs)).at
        (record w { reads = suc w.reads }) (p, i) in
    (after_transaction P (run_fast_loop_tx x) w (p, i) steps).1
