-- ===== src/Control/Dispatch/Cycle.antt =====
-- control/src/services/orchestrator.rs: what run_dispatch_cycle keeps of the table of actions.
use quiltc.Prelude.{
  some, ap, ℕ, suc, String, ◌≡◌, true, false, List, [], ◌∷◌, str_eq, str_eq_iff, keep, sort_by,
  take, map, All, All-keep, All-sort_by, All-take, All-map, ltb, Bool-cases, inl, inr,
}
use quiltc.Control.Rows.{ActionRow, DispatchAction, ExecutionConfig}
use quiltc.Control.World.{Externals, World, ◌>>=◌, for_each}
use quiltc.Control.World.Keeps.{
  Keeps, Keeps-bind, Keeps-now, Keeps-gets, Keeps-for_each, Keeps-for_each-All,
}
use quiltc.Control.Codes.{max_dispatch_batch}
use quiltc.Control.Actions.{is_dispatchable, dispatch_action, load_dispatch_candidates}
use quiltc.Control.Actions.Writes.{KeptByUpdates, KeptByInserts}
use quiltc.Control.Actions.Unique.{
  Differs, IsKeyed, IsKeyed-updates, IsKeyed-inserts, HasRow, HasRow-updates, HasRow-inserts,
}
use quiltc.Control.Dispatch.{process_action, run_dispatch_cycle}
use quiltc.Control.Dispatch.Writes.{Keeps-process_action}

-- What the updates of any action and the insertions keep, a dispatch cycle keeps.
pub Keeps-run_dispatch_cycle :
    (x : Externals) (cfg : ExecutionConfig) (P : List ActionRow → Type 0)
    → ((i : String) → KeptByUpdates P i)
    → KeptByInserts x P
    → Keeps P (run_dispatch_cycle x cfg)
unfolding run_dispatch_cycle load_dispatch_candidates
Keeps-run_dispatch_cycle x cfg P updates inserts = Keeps-bind P _ _ (Keeps-now P) (λ now.
    Keeps-bind P _ _ (Keeps-gets P _) (λ candidates.
      Keeps-for_each P _ candidates
        (λ a. Keeps-process_action x cfg P a (updates a.action_id) inserts)))

-- No two actions share an identifier or an idempotency key after a dispatch cycle if none do
-- before it, whatever the service replies and whether or not the cycle fails.
pub run_dispatch_cycle-IsKeyed :
    (x : Externals) (cfg : ExecutionConfig) (w : World)
    → IsKeyed w.db.actions
    → IsKeyed (run_dispatch_cycle x cfg w).1.db.actions
run_dispatch_cycle-IsKeyed x cfg w h =
    (Keeps-run_dispatch_cycle x cfg IsKeyed IsKeyed-updates (IsKeyed-inserts x)).at w h

same_row : (q r : ActionRow) → some q ≡ some r → q ≡ r
same_row q r e = cc

module _ (now : ℕ) (i : String) (r : ActionRow) (settled : is_dispatchable now r ≡ false) where
  abbrev Other : ActionRow → Type 0
  Other q = is_dispatchable now q ≡ true → str_eq q.action_id i ≡ false

  Differs-Other :
      (q : ActionRow) (qs : List ActionRow)
      → str_eq q.action_id i ≡ true
      → All (Differs q) qs
      → All Other qs
  Differs-Other q [] e h = tt
  Differs-Other q (p ∷ qs) e h =
      ((λ _. rw (← (str_eq_iff q.action_id i).0 e) h.0.0), Differs-Other q qs e h.1)

  absurd_of_settled :
      (q : ActionRow) → q ≡ r → is_dispatchable now q ≡ true → str_eq q.action_id i ≡ false
  absurd_of_settled q e d = let at_q = ap (is_dispatchable now) e in cc (settled, d, at_q)

  others : (rs : List ActionRow) → IsKeyed rs → HasRow i r rs → All Other rs
  others [] k h = tt
  others (q ∷ rs) k h = elim (Bool-cases (str_eq q.action_id i)) [
    | inl e ↦ ((λ d. absurd_of_settled q (same_row q r (rw e at h)) d), Differs-Other q rs e k.0)
    | inr e ↦ ((λ _. e), others rs k.1 (rw e at h))
  ]

  candidates_other :
      (x : Externals) (rs : List ActionRow)
      → IsKeyed rs
      → HasRow i r rs
      → All
          (λ (a : DispatchAction). str_eq a.action_id i ≡ false)
          (map (dispatch_action x) (
            take max_dispatch_batch
              (sort_by (λ a b. ltb a.created_at b.created_at) (keep (is_dispatchable now) rs))))
  unfolding dispatch_action
  candidates_other x rs k h = All-map _ (dispatch_action x) _ (
      All-take _ max_dispatch_batch _
        (All-sort_by _ _ _ (All-keep _ (is_dispatchable now) rs (others rs k h))))

  -- The cycle that loads its candidates at the time `now`.
  loaded_cycle_Keeps :
      (x : Externals) (cfg : ExecutionConfig) (w : World)
      → IsKeyed w.db.actions
      → HasRow i r w.db.actions
      → HasRow i r
          (for_each
            (process_action x cfg)
            (map (dispatch_action x) (
              take max_dispatch_batch (
                sort_by
                  (λ a b. ltb a.created_at b.created_at)
                  (keep (is_dispatchable now) w.db.actions))))
            w).1.db.actions
  loaded_cycle_Keeps x cfg w k h =
      (Keeps-for_each-All (HasRow i r) (process_action x cfg) _
          (keeps_all _ (candidates_other x w.db.actions k h))).at
        w h
    where
      keeps_all :
          (cs : List DispatchAction)
          → All (λ (a : DispatchAction). str_eq a.action_id i ≡ false) cs
          → All (λ a. Keeps (HasRow i r) (process_action x cfg a)) cs
      keeps_all [] o = tt
      keeps_all (a ∷ cs) o = (
        Keeps-process_action x cfg (HasRow i r) a (HasRow-updates i r a.action_id o.0)
            (HasRow-inserts x i r),
        keeps_all cs o.1,
      )

-- A dispatch cycle leaves an action's row as it is if the row is not due when the cycle starts:
-- its status is none of pending, accepted, queued and running, or its retry time is not reached.
-- (Identifiers must be unique in the table.)
pub run_dispatch_cycle-HasRow :
    (x : Externals) (cfg : ExecutionConfig) (w : World) (i : String) (r : ActionRow)
    → IsKeyed w.db.actions
    → HasRow i r w.db.actions
    → is_dispatchable (w.clock w.reads) r ≡ false
    → HasRow i r (run_dispatch_cycle x cfg w).1.db.actions
unfolding run_dispatch_cycle load_dispatch_candidates ◌>>=◌
run_dispatch_cycle-HasRow x cfg w i r k h settled =
    loaded_cycle_Keeps (w.clock w.reads) i r settled x cfg (record w { reads = suc w.reads }) k h
