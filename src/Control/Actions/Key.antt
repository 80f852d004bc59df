-- ===== src/Control/Actions/Key.antt =====
-- control/src/services/orchestrator.rs: what deterministic_idempotency_key tells apart, and what
-- enqueue_action does with a key that is there already.
use Prim.Native.String.{◌++◌}
use mathlib.Core.List.{◌++◌ as ◌++ᴸ◌}
use quiltc.Prelude.{
  ℕ, String, ◌≡◌, refl, sym, ap, ◌∙◌, Bool, true, false, Option, List, [], ◌∷◌, inl, inr,
  Bool-cases, ok, err, arith, str_eq, str_eq_refl, any,
}
use quiltc.Prelude.Text.{bar, has_char}
use quiltc.Prelude.Text.Laws.{bar_cancel, bar_assoc}
use quiltc.Control.Json.{Value, canonical_json}
use quiltc.Control.Rows.{ActionRow}
use quiltc.Control.World.{Externals, World, ◌>>=◌}
use quiltc.Control.Actions.{
  has_id, key_input, deterministic_idempotency_key, pending_row, enqueue_action,
}

-- Two key inputs whose tenants, workloads and action types hold no `|` are equal only if the
-- tenants, the workloads, the action types and what follows (payload and window) are equal.
pub key_input_inj :
    (x : Externals) (t w a t' w' a' : String) (p p' : Value) (n n' : ℕ)
    → has_char b'|' t ≡ false
    → has_char b'|' t' ≡ false
    → has_char b'|' w ≡ false
    → has_char b'|' w' ≡ false
    → has_char b'|' a ≡ false
    → has_char b'|' a' ≡ false
    → key_input x t w a p n ≡ key_input x t' w' a' p' n'
    → (t ≡ t')
      × (w ≡ w')
      × (a ≡ a')
      × (x.to_text (canonical_json p) ++ bar (x.show_nat n)
          ≡ x.to_text (canonical_json p') ++ bar (x.show_nat n'))
unfolding key_input
key_input_inj x t w a t' w' a' p p' n n' ht ht' hw hw' ha ha' e =
    let (tenants, e₁) = bar_cancel t t' _ _ ht ht' e in
    let (workloads, e₂) = bar_cancel w w' _ _ hw hw' e₁ in
    let (types, e₃) = bar_cancel a a' _ _ ha ha' e₂ in (tenants, workloads, types, e₃)

-- A `|` in an identifier is not escaped: tenant `s` with workload `t|w` and tenant `s|t` with
-- workload `w` have one key for each type, payload and window.
key_collision :
    (x : Externals) (s t w a : String) (p : Value) (n : ℕ)
    → deterministic_idempotency_key x s (t ++ bar w) a p n
      ≡ deterministic_idempotency_key x (s ++ bar t) w a p n
unfolding deterministic_idempotency_key key_input
key_collision x s t w a p n =
    let tail = bar (a ++ bar (x.to_text (canonical_json p) ++ bar (x.show_nat n))) in
    ap x.sha256_hex
      (ap (λ u. s ++ bar u) (bar_assoc t w tail) ∙ sym (bar_assoc s t (bar (w ++ tail))))

abbrev holds_key : String → List ActionRow → Bool
holds_key k rows = any (λ r. str_eq r.idempotency_key k) rows

-- With the key of an action in the table, queueing it succeeds and leaves the data base alone.
pub enqueue_known :
    (x : Externals) (t w a : String) (p : Value) (ttl n : ℕ) (rollback : Option Value)
    (parent : Option String) (s : World)
    → holds_key (deterministic_idempotency_key x t w a p n) s.db.actions ≡ true
    → ((enqueue_action x t w a p ttl n rollback parent s).0 ≡ ok tt)
      × ((enqueue_action x t w a p ttl n rollback parent s).1.db ≡ s.db)
unfolding ◌>>=◌ enqueue_action pending_row
enqueue_known x t w a p ttl n rollback parent s h = rw h (refl, refl)

any-snoc {ℓ} :
    {A : Type ℓ} (p : A → Bool) (xs : List A) (y : A) → p y ≡ true → any p (xs ++ᴸ y ∷ []) ≡ true
any-snoc p [] y h = ground arith
any-snoc p (x ∷ xs) y h = ground (arith, any-snoc p xs y h)

-- An action that was queued has its key in the table.
enqueue-holds_key :
    (x : Externals) (t w a : String) (p : Value) (ttl n : ℕ) (rollback : Option Value)
    (parent : Option String) (s : World)
    → (enqueue_action x t w a p ttl n rollback parent s).0 ≡ ok tt
    → holds_key
        (deterministic_idempotency_key x t w a p n)
        (enqueue_action x t w a p ttl n rollback parent s).1.db.actions
      ≡ true
unfolding ◌>>=◌ enqueue_action pending_row
enqueue-holds_key x t w a p ttl n rollback parent s h =
    elim (Bool-cases (holds_key key s.db.actions)) [
      | inl old ↦ rw old old
      | inr new ↦ elim (Bool-cases (any (has_id (s.uuids s.drawn)) s.db.actions)) [
        | inl taken ↦
            let e : err "UNIQUE constraint failed: orchestrator_action.action_id" ≡ ok tt =
              rw (new, taken) at h in
            cc
        | inr free ↦ rw (new, free) (any-snoc _ s.db.actions _ (str_eq_refl key))
      ]
    ]
  where
    key : String
    key = deterministic_idempotency_key x t w a p n

-- If queueing an action succeeds, queueing it again for the same decision window, with any time to
-- live, rollback and parent, succeeds and leaves the data base alone.
pub enqueue_action_twice :
    (x : Externals) (t w a : String) (p : Value) (ttl ttl' n : ℕ)
    (rollback rollback' : Option Value) (parent parent' : Option String) (s : World)
    → (enqueue_action x t w a p ttl n rollback parent s).0 ≡ ok tt
    → ((enqueue_action x t w a p ttl' n rollback' parent'
          (enqueue_action x t w a p ttl n rollback parent s).1).0
        ≡ ok tt)
      × ((enqueue_action x t w a p ttl' n rollback' parent'
            (enqueue_action x t w a p ttl n rollback parent s).1).1.db
          ≡ (enqueue_action x t w a p ttl n rollback parent s).1.db)
enqueue_action_twice x t w a p ttl ttl' n rollback rollback' parent parent' s h =
    enqueue_known x t w a p ttl' n rollback' parent'
      (enqueue_action x t w a p ttl n rollback parent s).1
      (enqueue-holds_key x t w a p ttl n rollback parent s h)

-- With an action of tenant `s` and workload `t|w` queued, the same action of tenant `s|t` and
-- workload `w` is dropped, though it succeeds: the data base is left alone.
pub enqueue_dropped_by_other_tenant :
    (x : Externals) (t u w a : String) (p : Value) (ttl n : ℕ) (rollback : Option Value)
    (parent : Option String) (s : World)
    → (enqueue_action x t (u ++ bar w) a p ttl n rollback parent s).0 ≡ ok tt
    → ((enqueue_action x
          (t ++ bar u)
          w
          a
          p
          ttl
          n
          rollback
          parent
          (enqueue_action x t (u ++ bar w) a p ttl n rollback parent s).1).0
        ≡ ok tt)
      × ((enqueue_action x
            (t ++ bar u)
            w
            a
            p
            ttl
            n
            rollback
            parent
            (enqueue_action x t (u ++ bar w) a p ttl n rollback parent s).1).1.db
          ≡ (enqueue_action x t (u ++ bar w) a p ttl n rollback parent s).1.db)
enqueue_dropped_by_other_tenant x t u w a p ttl n rollback parent s h =
    enqueue_known x (t ++ bar u) w a p ttl n rollback parent _ (
      rw (← key_collision x t u w a p n)
        (enqueue-holds_key x t (u ++ bar w) a p ttl n rollback parent s h))
