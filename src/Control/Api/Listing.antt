-- ===== src/Control/Api/Listing.antt =====
-- control/src/api/orchestrator.rs, list_actions: what GET /v1/orchestrator/actions answers.
use quiltc.Prelude.{
  ℕ, suc, zero, ◌≤◌, String, ◌≡◌, refl, true, Option, List, [], ◌∷◌, map, ok, min, length, take,
  keep, sort_by, All, All-map, All-take, All-sort_by, All-keep, ltb, ◌&&◌, arith,
}
use quiltc.Control.Rows.{OrchestratorAction}
use quiltc.Control.World.{Externals, World, ◌>>=◌}
use quiltc.Control.Api.{
  passes, row_to_action, list_actions, limit_or_default, list_actions_handler, okay,
}

length-map : {A B : Type 0} (f : A → B) (xs : List A) → length (map f xs) ≡ length xs
length-map f [] = refl
length-map f (x ∷ xs) = omega (arith, length-map f xs)

length-take : {A : Type 0} (n : ℕ) (xs : List A) → length (take n xs) ≤ n
length-take zero xs = omega arith
length-take (suc n) [] = omega arith
length-take (suc n) (x ∷ xs) = omega (arith, length-take n xs)

All-holds : {A : Type 0} (P : A → Type 0) (xs : List A) → ((a : A) → P a) → All P xs
All-holds P [] f = tt
All-holds P (x ∷ xs) f = (f x, All-holds P xs f)

-- The request is answered by at most 1000 actions, and by no more than a limit that it gives, all
-- of the tenant and with the status that it asks for; it changes nothing.
list_actions_handler_lem :
    (x : Externals) (tenant status : Option String) (limit : Option ℕ) (w : World)
    → (listed : List OrchestratorAction) × (list_actions_handler x tenant status limit w
        ≡ (ok (okay listed), w))
      × (length listed ≤ 1000)
      × (length listed ≤ limit_or_default limit)
      × All (λ a. (passes tenant a.tenant_id && passes status a.status) ≡ true) listed
unfolding list_actions_handler list_actions row_to_action ◌>>=◌
list_actions_handler_lem x tenant status limit w =
    let rows = take (min (limit_or_default limit) 1000) (
      sort_by (λ a b. ltb b.created_at a.created_at)
        (keep (λ r. passes tenant r.tenant_id && passes status r.status) w.db.actions)) in
    let size = length-map (row_to_action x) rows in
    let few = length-take (min (limit_or_default limit) 1000) (
      sort_by (λ a b. ltb b.created_at a.created_at)
        (keep (λ r. passes tenant r.tenant_id && passes status r.status) w.db.actions)) in
    (
      map (row_to_action x) rows,
      refl,
      omega arith,
      omega arith,
      All-map _ (row_to_action x) rows (
          All-take _ (min (limit_or_default limit) 1000) _
            (All-sort_by _ _ _ (All-keep _ _ w.db.actions (All-holds _ w.db.actions (λ r h. h))))),
    )
