-- ===== src/Control/Actions/Unique.antt =====
-- control/migrations/003_orchestrator.sql: the primary key and the unique column of
-- orchestrator_action, as an invariant; and what an update or an insertion leaves alone.
use quiltc.Prelude.{
  String, ◌≡◌, refl, Bool, false, some, List, [], ◌∷◌, ◌++◌, arith, str_eq, str_eq_iff, any, find,
  update_where, All, All-append, if◌then◌else◌, Bool-cases, inl, inr, ◌∙◌,
}
use quiltc.Control.Rows.{ActionRow}
use quiltc.Control.World.{Externals, ◌>>=◌, modify}
use quiltc.Control.World.Keeps.{Keeps}
use quiltc.Control.Actions.{has_id, insert_action}
use quiltc.Control.Actions.Writes.{KeepsKeys, KeptByUpdates, KeptByInserts}

-- Neither the identifier nor the idempotency key is shared.
abbrev pub Differs : ActionRow → ActionRow → Type 0
Differs r q =
    (str_eq q.action_id r.action_id ≡ false) × (str_eq q.idempotency_key r.idempotency_key ≡ false)

abbrev pub IsKeyed : List ActionRow → Type 0
IsKeyed [] = Unit
IsKeyed (r ∷ rs) = All (Differs r) rs × IsKeyed rs

module _ (f : ActionRow → ActionRow) (k : KeepsKeys f) (p : ActionRow → Bool) where
  update_id : (r : ActionRow) → (if p r then f r else r).action_id ≡ r.action_id
  update_id r = ground (arith, k.action_id r)

  update_key : (r : ActionRow) → (if p r then f r else r).idempotency_key ≡ r.idempotency_key
  update_key r = ground (arith, k.idempotency_key r)

  Differs-update :
      (r q : ActionRow) → Differs r q → Differs (if p r then f r else r) (if p q then f q else q)
  Differs-update r q d = rw (update_id r, update_id q, update_key r, update_key q) d

  All-update_where :
      (r : ActionRow) (rs : List ActionRow)
      → All (Differs r) rs
      → All (Differs (if p r then f r else r)) (update_where p f rs)
  All-update_where r [] h = tt
  All-update_where r (q ∷ rs) h = (Differs-update r q h.0, All-update_where r rs h.1)

  IsKeyed-update_where : (rs : List ActionRow) → IsKeyed rs → IsKeyed (update_where p f rs)
  IsKeyed-update_where [] h = tt
  IsKeyed-update_where (r ∷ rs) h = (All-update_where r rs h.0, IsKeyed-update_where rs h.1)

str_eq_symm : (s t : String) → str_eq s t ≡ false → str_eq t s ≡ false
str_eq_symm s t h = ground (arith, str_eq_iff s t, str_eq_iff t s)

-- A row with a new identifier and a new key goes to the end.
IsKeyed-snoc :
    (row : ActionRow) (rs : List ActionRow)
    → any (λ r. str_eq r.idempotency_key row.idempotency_key) rs ≡ false
    → any (has_id row.action_id) rs ≡ false
    → IsKeyed rs
    → IsKeyed (rs ++ row ∷ [])
IsKeyed-snoc row [] k i h = (tt, tt)
IsKeyed-snoc row (r ∷ rs) k i h = (
  All-append (Differs r) rs (row ∷ []) h.0 (
    (
      str_eq_symm r.action_id row.action_id (ground arith),
      str_eq_symm r.idempotency_key row.idempotency_key (ground arith),
    ),
    tt,
  ),
  IsKeyed-snoc row rs (ground arith) (ground arith) h.1,
)

pub IsKeyed-updates : (i : String) → KeptByUpdates IsKeyed i
unfolding modify
IsKeyed-updates i f k = record { at = λ w h. IsKeyed-update_where f k (has_id i) w.db.actions h }

-- What a row with a new identifier and a new key at the end keeps, an insertion keeps.
pub insert_action-Keeps :
    (P : List ActionRow → Type 0) (row : ActionRow)
    → ((rs : List ActionRow)
        → any (λ r. str_eq r.idempotency_key row.idempotency_key) rs ≡ false
        → any (has_id row.action_id) rs ≡ false
        → P rs
        → P (rs ++ row ∷ []))
    → Keeps P (insert_action row)
unfolding insert_action ◌>>=◌
insert_action-Keeps P row grow = record {
  at = λ w h.
      elim (Bool-cases (any (λ r. str_eq r.idempotency_key row.idempotency_key) w.db.actions)) [
        | inl old ↦ rw old h
        | inr new ↦ elim (Bool-cases (any (has_id row.action_id) w.db.actions)) [
          | inl taken ↦ rw (new, taken) h
          | inr free ↦ rw (new, free) (grow w.db.actions new free h)
        ]
      ];
}

pub IsKeyed-inserts : (x : Externals) → KeptByInserts x IsKeyed
IsKeyed-inserts x row derived = insert_action-Keeps IsKeyed row (IsKeyed-snoc row)

-- The row of an identifier.
abbrev pub HasRow : String → ActionRow → List ActionRow → Type 0
HasRow i r rs = find (has_id i) rs ≡ some r

find-update_where :
    (f : ActionRow → ActionRow) (k : KeepsKeys f) (i j : String) (rs : List ActionRow)
    → str_eq j i ≡ false
    → find (has_id i) (update_where (has_id j) f rs) ≡ find (has_id i) rs
find-update_where f k i j [] e = refl
find-update_where f k i j (r ∷ rs) e = ground (
  arith,
  k.action_id r,
  find-update_where f k i j rs e,
  str_eq_iff r.action_id j,
  str_eq_iff r.action_id i,
  str_eq_iff j i,
)

find-append :
    (i : String) (r : ActionRow) (rs qs : List ActionRow)
    → find (has_id i) rs ≡ some r
    → find (has_id i) (rs ++ qs) ≡ some r
find-append i r [] qs h = cc
find-append i r (q ∷ rs) qs h = ground (arith, find-append i r rs qs)

-- An update of another action leaves the row alone.
pub HasRow-updates :
    (i : String) (r : ActionRow) (j : String) → str_eq j i ≡ false → KeptByUpdates (HasRow i r) j
unfolding modify
HasRow-updates i r j e f k = record { at = λ w h. find-update_where f k i j w.db.actions e ∙ h }

pub HasRow-inserts : (x : Externals) (i : String) (r : ActionRow) → KeptByInserts x (HasRow i r)
HasRow-inserts x i r row derived =
    insert_action-Keeps (HasRow i r) row (λ rs _ _ h. find-append i r rs (row ∷ []) h)

-- An update of the action writes its row.
pub HasRow-update_self :
    (f : ActionRow → ActionRow) (k : KeepsKeys f) (i : String) (r : ActionRow) (rs : List ActionRow)
    → HasRow i r rs
    → HasRow i (f r) (update_where (has_id i) f rs)
HasRow-update_self f k i r [] h = cc
HasRow-update_self f k i r (q ∷ rs) h =
    ground (arith, k.action_id q, HasRow-update_self f k i r rs, str_eq_iff q.action_id i)
