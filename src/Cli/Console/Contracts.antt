-- ===== src/Cli/Console/Contracts.antt =====
-- Contracts of the commands of cli/src: what a command gives, which errors it has, and which
-- calls it makes. A command with a contract never runs out of fuel.
use quiltc.Prelude.{
  ℕ, ◌+◌, ◌≤◌, String, ◌≡◌, refl, sym, ◌∙◌, ap, Bool, true, false, Option, none, some, List, [],
  ◌++◌, length, length-append, All, All-append, arith, if◌then◌else◌,
}
use mathlib.Core.List.{append-nil, append_assoc}
use quiltc.Prelude.Maps.{lookup}
use quiltc.Cli.Console.{
  Bytes, ServiceCall, Output, Console, Result, ok, err, stuck, M, resume, pure, bail, read_result,
  read_file, write_result, write_file, print, new_uuid, read_clock, ◌>>=◌, some_or, changed,
  map_err, recovered, or_else,
}

module _ {E A : Type 0} (R : E → Type 0) (P : A → Type 0) where
  -- A value of which P holds, or an error of which R holds
  abbrev pub Gives : Result E A → Type 0
  Gives (ok a) = P a
  Gives (err e) = R e
  Gives stuck = ⊥

-- At most n more calls, of which Q holds, while the clock does not go back
pub record Goes (Q : ServiceCall → Type 0) (n : ℕ) (w v : Console) : Type 0 where
  pub onward : w.now ≤ v.now
  pub new_calls : List ServiceCall
  pub grows : v.calls ≡ w.calls ++ new_calls
  pub holds : All Q new_calls
  pub bounded : length new_calls ≤ n

pub record Meets {E A : Type 0} (Q : ServiceCall → Type 0) (R : E → Type 0) (n : ℕ) (P : A → Type 0)
    (m : M E A) : Type 0 where
  pub gives : (w : Console) → Gives R P (m w).0
  pub goes : (w : Console) → Goes Q n w (m w).1

module _ (Q : ServiceCall → Type 0) where
  pub Goes-stay : (w v : Console) → w.now ≤ v.now → v.calls ≡ w.calls → Goes Q 0 w v
  Goes-stay w v t e = record {
    onward = t;
    new_calls = [];
    grows = e ∙ sym (append-nil w.calls);
    holds = tt;
    bounded = omega arith;
  }

  pub Goes-more : (n k : ℕ) (w v : Console) → n ≤ k → Goes Q n w v → Goes Q k w v
  Goes-more n k w v h g = record {
    onward = g.onward;
    new_calls = g.new_calls;
    grows = g.grows;
    holds = g.holds;
    bounded = omega (arith, g.bounded);
  }

  pub Goes-then : (n k : ℕ) (u v w : Console) → Goes Q n u v → Goes Q k v w → Goes Q (n + k) u w
  Goes-then n k u v w g h = record {
    onward = omega (arith, g.onward, h.onward);
    new_calls = g.new_calls ++ h.new_calls;
    grows =
        h.grows
        ∙ ap (λ cs. cs ++ h.new_calls) g.grows
        ∙ append_assoc u.calls g.new_calls h.new_calls;
    holds = All-append Q g.new_calls h.new_calls g.holds h.holds;
    bounded = rw (length-append g.new_calls h.new_calls) (omega (arith, g.bounded, h.bounded));
  }

module _ (Q : ServiceCall → Type 0) {E A : Type 0} (R : E → Type 0) (P : A → Type 0) where
  pub Meets-pure : (a : A) → P a → Meets Q R 0 P (pure a)
  unfolding pure
  Meets-pure a h = record { gives = λ w. h; goes = λ w. Goes-stay Q w w (omega arith) refl }

  pub Meets-bail : (e : E) → R e → Meets Q R 0 P (bail e)
  unfolding bail
  Meets-bail e h = record { gives = λ w. h; goes = λ w. Goes-stay Q w w (omega arith) refl }

  pub Meets-some_or :
      (e : E) (o : Option A) → R e → ((a : A) → o ≡ some a → P a) → Meets Q R 0 P (some_or e o)
  Meets-some_or e none h k = Meets-bail e h
  Meets-some_or e (some a) h k = Meets-pure a (k a refl)

  pub Meets-if :
      (b : Bool) (n : ℕ) (l m : M E A)
      → Meets Q R n P l
      → Meets Q R n P m
      → Meets Q R n P (if b then l else m)
  Meets-if true n l m g h = g
  Meets-if false n l m g h = h

  pub Meets-more : (n k : ℕ) (m : M E A) → n ≤ k → Meets Q R n P m → Meets Q R k P m
  Meets-more n k m l h = record {
    gives = h.gives;
    goes = λ w. Goes-more Q n k w (m w).1 l (h.goes w);
  }

  -- What is known of the value may be dropped.
  pub Meets-forget : (n : ℕ) (m : M E A) → Meets Q R n P m → Meets Q R n (λ a. Unit) m
  Meets-forget n m h = record { gives = λ w. given (m w).0 (h.gives w); goes = h.goes }
    where
      given : (r : Result E A) → Gives R P r → Gives R (λ a. Unit) r
      given (ok a) p = tt
      given (err e) p = p
      given stuck p = p

  -- A value comes from a run.
  pub Meets-same :
      (n : ℕ) (m : M E A) → Meets Q R n P m → Meets Q R n (λ a. (w : Console) × ((m w).0 ≡ ok a)) m
  Meets-same n m h = record { gives = λ w. given w (m w).0 refl (h.gives w); goes = h.goes }
    where
      given :
          (w : Console) (r : Result E A)
          → (m w).0 ≡ r
          → Gives R P r
          → Gives R (λ a. (w : Console) × ((m w).0 ≡ ok a)) r
      given w (ok a) e g = (w, e)
      given w (err x) e g = g
      given w stuck e g = g

  pub Meets-or_else :
      (n k : ℕ) (m l : M E A)
      → Meets Q R n P m
      → Meets Q R k P l
      → Meets Q R (n + k) P (or_else m l)
  unfolding or_else
  Meets-or_else n k m l g h = record {
    gives = λ w. given (m w).0 (m w).1 (g.gives w);
    goes = λ w. gone w (m w).0 (m w).1 (g.goes w);
  }
    where
      given : (r : Result E A) (v : Console) → Gives R P r → Gives R P (recovered r v l).0
      given (ok a) v p = p
      given (err e) v p = h.gives v
      given stuck v p = p

      gone :
          (w : Console) (r : Result E A) (v : Console)
          → Goes Q n w v
          → Goes Q (n + k) w (recovered r v l).1
      gone w (ok a) v s = Goes-more Q n (n + k) w v (omega arith) s
      gone w (err e) v s = Goes-then Q n k w v _ s (h.goes v)
      gone w stuck v s = Goes-more Q n (n + k) w v (omega arith) s

module _ (Q : ServiceCall → Type 0) {E A B : Type 0} (R : E → Type 0) (P : A → Type 0)
    (S : B → Type 0) where
  resumed-Gives :
      (k : ℕ) (f : A → M E B) (r : Result E A) (v : Console)
      → Gives R P r
      → ((a : A) → P a → Meets Q R k S (f a))
      → Gives R S (resume r v f).0
  resumed-Gives k f (ok a) v p h = (h a p).gives v
  resumed-Gives k f (err e) v p h = p
  resumed-Gives k f stuck v p h = p

  resumed-Goes :
      (n k : ℕ) (f : A → M E B) (w : Console) (r : Result E A) (v : Console)
      → Gives R P r
      → Goes Q n w v
      → ((a : A) → P a → Meets Q R k S (f a))
      → Goes Q (n + k) w (resume r v f).1
  resumed-Goes n k f w (ok a) v p s h = Goes-then Q n k w v _ s ((h a p).goes v)
  resumed-Goes n k f w (err e) v p s h = Goes-more Q n (n + k) w v (omega arith) s
  resumed-Goes n k f w stuck v p s h = Goes-more Q n (n + k) w v (omega arith) s

  -- What follows a run
  pub bind_at :
      (n k : ℕ) (m : M E A) (f : A → M E B) (w : Console)
      → Gives R P (m w).0
      → Goes Q n w (m w).1
      → ((a : A) → P a → Meets Q R k S (f a))
      → Gives R S ((m >>= f) w).0 × Goes Q (n + k) w ((m >>= f) w).1
  unfolding ◌>>=◌
  bind_at n k m f w g s h =
      (resumed-Gives k f (m w).0 (m w).1 g h, resumed-Goes n k f w (m w).0 (m w).1 g s h)

  pub Meets-bind :
      (n k : ℕ) (m : M E A) (f : A → M E B)
      → Meets Q R n P m
      → ((a : A) → P a → Meets Q R k S (f a))
      → Meets Q R (n + k) S (m >>= f)
  Meets-bind n k m f g h = record {
    gives = λ w. (bind_at n k m f w (g.gives w) (g.goes w) h).0;
    goes = λ w. (bind_at n k m f w (g.gives w) (g.goes w) h).1;
  }

module _ (Q : ServiceCall → Type 0) {E F A : Type 0} (R : E → Type 0) (T : F → Type 0)
    (P : A → Type 0) where
  pub changed-Gives :
      (f : E → F) (r : Result E A)
      → ((e : E) → R e → T (f e))
      → Gives R P r
      → Gives T P (changed f r)
  changed-Gives f (ok a) k p = p
  changed-Gives f (err e) k p = k e p
  changed-Gives f stuck k p = p

  pub Meets-map_err :
      (f : E → F) (n : ℕ) (m : M E A)
      → ((e : E) → R e → T (f e))
      → Meets Q R n P m
      → Meets Q T n P (map_err f m)
  unfolding map_err
  Meets-map_err f n m k h = record {
    gives = λ w. changed-Gives f (m w).0 k (h.gives w);
    goes = h.goes;
  }

-- Actions that make no call
module _ (Q : ServiceCall → Type 0) {E : Type 0} (R : E → Type 0) where
  pub Meets-print : (o : Output) → Meets Q R 0 (λ a. Unit) (print o)
  unfolding print
  Meets-print o = record { gives = λ w. tt; goes = λ w. Goes-stay Q w _ (omega arith) refl }

  pub Meets-uuid : Meets Q R 0 (λ a. Unit) (new_uuid {E = E})
  unfolding new_uuid
  Meets-uuid = record { gives = λ w. tt; goes = λ w. Goes-stay Q w _ (omega arith) refl }

  Meets-read_clock : Meets Q R 0 (λ a. Unit) (read_clock {E = E})
  unfolding read_clock
  Meets-read_clock = record { gives = λ w. tt; goes = λ w. Goes-stay Q w _ (omega arith) refl }

  pub Meets-read_file : (e : E) (path : String) → R e → Meets Q R 0 (λ a. Unit) (read_file e path)
  unfolding read_file
  Meets-read_file e path h = record {
    gives = λ w. (given w (lookup path w.files));
    goes = λ w. gone w (lookup path w.files);
  }
    where
      given : (w : Console) (o : Option Bytes) → Gives R (λ a. Unit) (read_result e o w).0
      given w none = h
      given w (some b) = tt

      gone : (w : Console) (o : Option Bytes) → Goes Q 0 w (read_result e o w).1
      gone w none = Goes-stay Q w w (omega arith) refl
      gone w (some b) = Goes-stay Q w w (omega arith) refl

  pub Meets-write_file :
      (e : E) (path : String) (b : Bytes) → R e → Meets Q R 0 (λ a. Unit) (write_file e path b)
  unfolding write_file
  Meets-write_file e path b h = record {
    gives = λ w. (given w (w.writable path));
    goes = λ w. gone w (w.writable path);
  }
    where
      given : (w : Console) (o : Bool) → Gives R (λ a. Unit) (write_result e path b o w).0
      given w true = tt
      given w false = h

      gone : (w : Console) (o : Bool) → Goes Q 0 w (write_result e path b o w).1
      gone w true = Goes-stay Q w _ (omega arith) refl
      gone w false = Goes-stay Q w w (omega arith) refl

module _ (Q : ServiceCall → Type 0) {E A : Type 0} (R T : E → Type 0) (P : A → Type 0) where
  pub Meets-errors : (n : ℕ) (m : M E A) → ((e : E) → R e → T e) → Meets Q R n P m → Meets Q T n P m
  Meets-errors n m k h = record { gives = λ w. given (m w).0 (h.gives w); goes = h.goes }
    where
      given : (r : Result E A) → Gives R P r → Gives T P r
      given (ok a) p = p
      given (err e) p = k e p
      given stuck p = p
