-- ===== src/Control/World/Silent.antt =====
-- Handlers of control/src that send no request.
use quiltc.Prelude.{◌≡◌, refl, ◌∙◌, Bool, true, false, if◌then◌else◌, String, Res, ok, err}
use quiltc.Control.World.{
  modify, resume, Db, M, World, pure, bail, gets, lift, now_unix_seconds, new_uuid, ◌>>=◌,
}

pub record Silent {A : Type 0} (m : M A) : Type 0 where
  pub at : (w : World) → (m w).1.sent ≡ w.sent

module _ {A : Type 0} where
  pub Silent-pure : (a : A) → Silent (pure a)
  unfolding pure
  Silent-pure a = record { at = λ w. refl }

  pub Silent-bail : (e : String) → Silent (bail {A = A} e)
  unfolding bail
  Silent-bail e = record { at = λ w. refl }

  pub Silent-gets : (f : Db → A) → Silent (gets f)
  unfolding gets
  Silent-gets f = record { at = λ w. refl }

  pub Silent-lift : (r : Res A) → Silent (lift r)
  unfolding lift
  Silent-lift r = record { at = λ w. refl }

  pub Silent-if : (b : Bool) (m n : M A) → Silent m → Silent n → Silent (if b then m else n)
  Silent-if true m n k l = k
  Silent-if false m n k l = l

pub Silent-modify : (f : Db → Db) → Silent (modify f)
unfolding modify
Silent-modify f = record { at = λ w. refl }

pub Silent-now : Silent now_unix_seconds
unfolding now_unix_seconds
Silent-now = record { at = λ w. refl }

pub Silent-uuid : Silent new_uuid
unfolding new_uuid
Silent-uuid = record { at = λ w. refl }

module _ {A B : Type 0} where
  pub Silent-bind : (m : M A) (f : A → M B) → Silent m → ((a : A) → Silent (f a)) → Silent (m >>= f)
  unfolding ◌>>=◌
  Silent-bind m f k l = record { at = λ w. go (m w).0 (m w).1 ∙ k.at w }
    where
      go : (r : Res A) (w' : World) → (resume r w' f).1.sent ≡ w'.sent
      go (ok a) w' = (l a).at w'
      go (err e) w' = refl

-- A handler that begins by reading the clock and then writes
pub Silent-timed :
    {B : Type 0} (f : _ → M B) → ((n : _) → Silent (f n)) → Silent (now_unix_seconds >>= f)
Silent-timed f k = Silent-bind now_unix_seconds f Silent-now k
