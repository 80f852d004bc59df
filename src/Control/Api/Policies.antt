-- ===== src/Control/Api/Policies.antt =====
-- control/src/services/orchestrator.rs: a policy that was put is the one that the fast loop loads.
use quiltc.Prelude.{
  String, ◌≡◌, true, false, some, ok, arith, str_eq_iff, find-upsert, if◌then◌else◌, ap₂,
  Bool-cases, inl, inr,
}
use quiltc.Prelude.Text.{trim, is_empty}
use quiltc.Control.Rows.{WorkloadPolicyRequest, WorkloadPolicyRow}
use quiltc.Control.World.{Externals, World, ◌>>=◌}
use quiltc.Control.Loops.{key_eq, load_policy}
use quiltc.Control.Api.{policy_row, upsert_workload_policy}

pub key_eq_iff : (t w t' w' : String) → key_eq t w t' w' ≡ true → (t ≡ t') × (w ≡ w')
key_eq_iff t w t' w' h = ground (arith, str_eq_iff t t', str_eq_iff w w')

pub key_eq-cong :
    (a b t w t' w' : String) → key_eq a b t w ≡ true → key_eq a b t' w' ≡ key_eq t w t' w'
key_eq-cong a b t w t' w' h = let (p, q) = key_eq_iff a b t w h in ap₂ (λ c d. key_eq c d t' w') p q

pub key_eq_join :
    (a b t w t' w' : String)
    → key_eq a b t' w' ≡ true
    → key_eq t w t' w' ≡ true
    → key_eq a b t w ≡ true
key_eq_join a b t w t' w' h k = ground (
  arith,
  str_eq_iff a t',
  str_eq_iff b w',
  str_eq_iff t t',
  str_eq_iff w w',
  str_eq_iff a t,
  str_eq_iff b w,
)

-- What load_policy reads of a request that was put.
abbrev pub loaded : WorkloadPolicyRequest → WorkloadPolicyRow
loaded req = record {
  runtime_function_id = req.runtime_function_id;
  max_concurrency = req.max_concurrency;
  hard_quota = req.hard_quota;
  soft_burst = req.soft_burst;
  absolute_limit = req.absolute_limit;
  cooldown_seconds = req.cooldown_seconds;
  hysteresis_pct = req.hysteresis_pct;
  burst_cpu_cap = req.burst_cpu_cap;
  burst_mem_mb = req.burst_mem_mb;
  burst_ttl_seconds = req.burst_ttl_seconds;
  target_container_ids = req.target_container_ids;
}

-- After a policy with a function id that is not blank is put for a workload, loading that
-- workload's policy gives what was put, and loading another's gives what it gave before. (The JSON
-- text of the container ids must read back as the ids.)
pub load_policy-upsert_workload_policy :
    (x : Externals) (t w t' w' : String) (req : WorkloadPolicyRequest) (s : World)
    → x.ids_from_text (x.ids_to_text req.target_container_ids) ≡ some req.target_container_ids
    → is_empty (trim req.runtime_function_id) ≡ false
    → (load_policy x t' w' (upsert_workload_policy x t w req s).1).0
      ≡ (if key_eq t w t' w' then ok (some (loaded req)) else (load_policy x t' w' s).0)
unfolding load_policy upsert_workload_policy ◌>>=◌
load_policy-upsert_workload_policy x t w t' w' req s text named =
    rw
      (
        named,
        find-upsert (λ p. key_eq p.tenant_id p.workload_id t' w')
            (λ p. key_eq p.tenant_id p.workload_id t w) (policy_row x t w req (s.clock s.reads))
            s.db.policies (λ a e. key_eq-cong a.tenant_id a.workload_id t w t' w' e)
            (λ a e o. key_eq_join a.tenant_id a.workload_id t w t' w' e o),
      )
      (elim (Bool-cases (key_eq t w t' w')) [ inl e ↦ rw (e, text) | inr e ↦ rw e ])
