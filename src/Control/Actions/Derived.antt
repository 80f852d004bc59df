-- ===== src/Control/Actions/Derived.antt =====
-- control/src/services/orchestrator.rs, deterministic_idempotency_key and enqueue_action: an action
-- is queued once for what it is.
use quiltc.Prelude.{
  ◌%◌, String, ◌≡◌, ◌≢◌, ap, sym, ◌∙◌, Bool, true, false, List, [], ◌∷◌, str_eq, str_eq_refl,
  update_where, All, All-append, Bool-cases, inl, inr,
}
use quiltc.Control.Rows.{ActionRow}
use quiltc.Control.World.{Externals, modify}
use quiltc.Control.Codes.{fast_loop_seconds}
use quiltc.Control.Actions.{has_id}
use quiltc.Control.Actions.Writes.{
  KeepsKeys, KeptByUpdates, KeptByInserts, columns_of, key_text, IsDerived,
}
use quiltc.Control.Actions.Unique.{Differs, IsKeyed, insert_action-Keeps}

-- No two rows agree in tenant, workload, type, payload and decision window.
abbrev pub IsDistinct : List ActionRow → Type 0
IsDistinct [] = Unit
IsDistinct (r ∷ rs) = All (λ q. columns_of q ≢ columns_of r) rs × IsDistinct rs

module _ (x : Externals) where
  abbrev pub AreDerived : List ActionRow → Type 0
  AreDerived rs = All (IsDerived x) rs

  IsDerived-update :
      (f : ActionRow → ActionRow) (r : ActionRow) → KeepsKeys f → IsDerived x r → IsDerived x (f r)
  IsDerived-update f r k h = (
    k.idempotency_key r ∙ h.0 ∙ ap (λ c. x.sha256_hex (key_text x.show_nat c)) (sym (k.columns r)),
    ap (λ c. c.4 % fast_loop_seconds) (k.columns r) ∙ h.1,
  )

  AreDerived-update_where :
      (p : ActionRow → Bool) (f : ActionRow → ActionRow) (rs : List ActionRow)
      → KeepsKeys f
      → AreDerived rs
      → AreDerived (update_where p f rs)
  AreDerived-update_where p f [] k h = tt
  AreDerived-update_where p f (r ∷ rs) k h = (
    elim (Bool-cases (p r)) [ inl e ↦ rw e (IsDerived-update f r k h.0) | inr e ↦ rw e h.0 ],
    AreDerived-update_where p f rs k h.1,
  )

  pub AreDerived-updates : (i : String) → KeptByUpdates AreDerived i
  unfolding modify
  AreDerived-updates i f k = record {
    at = λ w h. AreDerived-update_where (has_id i) f w.db.actions k h;
  }

  pub AreDerived-inserts : KeptByInserts x AreDerived
  AreDerived-inserts row derived =
      insert_action-Keeps AreDerived row
        (λ rs k i h. All-append (IsDerived x) rs (row ∷ []) h (derived, tt))

  same_key :
      (r q : ActionRow)
      → IsDerived x r
      → IsDerived x q
      → columns_of q ≡ columns_of r
      → q.idempotency_key ≡ r.idempotency_key
  same_key r q hr hq e = hq.0 ∙ ap (λ c. x.sha256_hex (key_text x.show_nat c)) e ∙ sym hr.0

  apart :
      (r q : ActionRow) → IsDerived x r → IsDerived x q → Differs r q → columns_of q ≢ columns_of r
  apart r q hr hq d e =
      let k = same_key r q hr hq e in
      let lie : true ≡ false =
        sym (str_eq_refl r.idempotency_key) ∙ ap (λ t. str_eq t r.idempotency_key) (sym k) ∙ d.1 in
      cc

  others_apart :
      (r : ActionRow) (rs : List ActionRow)
      → IsDerived x r
      → AreDerived rs
      → All (Differs r) rs
      → All (λ q. columns_of q ≢ columns_of r) rs
  others_apart r [] h hs d = tt
  others_apart r (q ∷ rs) h hs d = (apart r q h hs.0 d.0, others_apart r rs h hs.1 d.1)

  -- Rows whose keys are the hashes of what they are, and differ, differ in what they are.
  pub derived-IsDistinct : (rs : List ActionRow) → AreDerived rs → IsKeyed rs → IsDistinct rs
  derived-IsDistinct [] h k = tt
  derived-IsDistinct (r ∷ rs) h k = (others_apart r rs h.0 h.1 k.0, derived-IsDistinct rs h.1 k.1)
