-- ===== src/Control/World/Keeps.antt =====
-- Predicates on the table of actions that a handler of control/src keeps, whatever its outcome.
use quiltc.Prelude.{All, Bool, true, false, if◌then◌else◌, String, List, [], ◌∷◌, Res, ok, err}
use quiltc.Control.Rows.{ActionRow}
use quiltc.Control.World.{
  modify, commit_or_roll_back, resume, Db, M, World, Request, pure, bail, attempt, gets, lift,
  now_unix_seconds, new_uuid, send, ◌>>=◌, transaction, for_each,
}

pub record Keeps {A : Type 0} (P : List ActionRow → Type 0) (m : M A) : Type 0 where
  pub at : (w : World) → P w.db.actions → P (m w).1.db.actions

module _ (P : List ActionRow → Type 0) {A : Type 0} where
  pub Keeps-pure : (a : A) → Keeps P (pure a)
  unfolding pure
  Keeps-pure a = record { at = λ w h. h }

  pub Keeps-bail : (e : String) → Keeps P (bail {A = A} e)
  unfolding bail
  Keeps-bail e = record { at = λ w h. h }

  pub Keeps-gets : (f : Db → A) → Keeps P (gets f)
  unfolding gets
  Keeps-gets f = record { at = λ w h. h }

  pub Keeps-lift : (r : Res A) → Keeps P (lift r)
  unfolding lift
  Keeps-lift r = record { at = λ w h. h }

  pub Keeps-attempt : (m : M A) → Keeps P m → Keeps P (attempt m)
  unfolding attempt
  Keeps-attempt m k = record { at = k.at }

  pub Keeps-if : (b : Bool) (m n : M A) → Keeps P m → Keeps P n → Keeps P (if b then m else n)
  Keeps-if true m n k l = k
  Keeps-if false m n k l = l

  pub Keeps-transaction : (m : M A) → Keeps P m → Keeps P (transaction m)
  unfolding transaction
  Keeps-transaction m k = record { at = λ w h. go w (m w).0 (m w).1 h (k.at w h) }
    where
      go :
          (w : World) (r : Res A) (w' : World)
          → P w.db.actions
          → P w'.db.actions
          → P (commit_or_roll_back w r w').1.db.actions
      go w (ok a) w' h h' = h'
      go w (err e) w' h h' = h

module _ (P : List ActionRow → Type 0) where
  pub Keeps-modify : (f : Db → Db) → ((d : Db) → P d.actions → P (f d).actions) → Keeps P (modify f)
  unfolding modify
  Keeps-modify f k = record { at = λ w h. k w.db h }

  pub Keeps-now : Keeps P now_unix_seconds
  unfolding now_unix_seconds
  Keeps-now = record { at = λ w h. h }

  pub Keeps-uuid : Keeps P new_uuid
  unfolding new_uuid
  Keeps-uuid = record { at = λ w h. h }

  pub Keeps-send : (r : Request) → Keeps P (send r)
  unfolding send
  Keeps-send r = record { at = λ w h. h }

module _ (P : List ActionRow → Type 0) {A B : Type 0} where
  pub Keeps-bind :
      (m : M A) (f : A → M B) → Keeps P m → ((a : A) → Keeps P (f a)) → Keeps P (m >>= f)
  unfolding ◌>>=◌
  Keeps-bind m f k l = record { at = λ w h. go (m w).0 (m w).1 (k.at w h) }
    where
      go : (r : Res A) (w' : World) → P w'.db.actions → P (resume r w' f).1.db.actions
      go (ok a) w' h = (l a).at w' h
      go (err e) w' h = h

module _ (P : List ActionRow → Type 0) {A : Type 0} where
  pub Keeps-for_each :
      (f : A → M Unit) (xs : List A) → ((a : A) → Keeps P (f a)) → Keeps P (for_each f xs)
  unfolding for_each
  Keeps-for_each f [] k = Keeps-pure P tt
  Keeps-for_each f (x ∷ xs) k =
      Keeps-bind P (f x) (λ _. for_each f xs) (k x) (λ _. Keeps-for_each f xs k)

  pub Keeps-for_each-All :
      (f : A → M Unit) (xs : List A) → All (λ a. Keeps P (f a)) xs → Keeps P (for_each f xs)
  unfolding for_each
  Keeps-for_each-All f [] k = Keeps-pure P tt
  Keeps-for_each-All f (x ∷ xs) k =
      Keeps-bind P (f x) (λ _. for_each f xs) k.0 (λ _. Keeps-for_each-All f xs k.1)
