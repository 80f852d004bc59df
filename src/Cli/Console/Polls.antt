-- ===== src/Cli/Console/Polls.antt =====
-- Waiting in a loop ends: cli/src/main.rs polls an operation until it has ended or a time-out has
-- passed.
use quiltc.Prelude.{
  ℕ, zero, suc, ◌+◌, ◌-◌, ◌*◌, ◌≤◌, ◌<◌, ◌≡◌, refl, false, Option, none, some, arith, ltb, lt→ltb,
  Bool-cases, inl, inr,
}
use quiltc.Cli.Console.{
  ServiceCall, Console, Result, ok, err, stuck, M, after_ask, poll_until, slept, read_clock, ◌>>=◌,
}
use quiltc.Cli.Console.Contracts.{Gives, Goes, Meets, Goes-stay, Goes-more, Goes-then}

abbrev pub Holds : {A : Type 0} → (A → Type 0) → Option A → Type 0
Holds P none = Unit
Holds P (some a) = P a

module _ (Q : ServiceCall → Type 0) {E A : Type 0} (R : E → Type 0) (P : A → Type 0)
    (timeout period : ℕ) (late : E) (late_holds : R late) (ask : M E (Option A))
    (asks : Meets Q R 1 (Holds P) ask) where
  abbrev Polls : ℕ → Console → Result E A × Console → Type 0
  Polls n w r = Gives R P r.0 × Goes Q n w r.1

  Goes-slept : (n : ℕ) (w v : Console) → Goes Q n w v → Goes Q n w (slept period v)
  Goes-slept n w v g = record {
    onward = omega (arith, g.onward);
    new_calls = g.new_calls;
    grows = g.grows;
    holds = g.holds;
    bounded = g.bounded;
  }

  after_ask-Polls :
      (n : ℕ) (w : Console) (r : Result E (Option A)) (v : Console) (again : M E A)
      → Gives R (Holds P) r
      → Goes Q 1 w v
      → (Goes Q 1 w (slept period v) → Polls n (slept period v) (again (slept period v)))
      → Polls (suc n) w (after_ask timeout period late ask r v (λ u. again (slept period u)))
  after_ask-Polls n w (ok (some a)) v again p g h = (p, Goes-more Q 1 (suc n) w v (omega arith) g)
  after_ask-Polls n w (ok none) v again p g h =
      let s : Goes Q 1 w (slept period v) = Goes-slept 1 w v g in
      (
        (h s).0,
        Goes-more Q (1 + n) (suc n) w _ (omega arith)
            (Goes-then Q 1 n w (slept period v) _ s (h s).1),
      )
  after_ask-Polls n w (err e) v again p g h = (p, Goes-more Q 1 (suc n) w v (omega arith) g)
  after_ask-Polls n w stuck v again p g h = elim p [ ]

  next_round : (more : ℕ) → period * suc more ≡ period + period * more
  next_round more = grind arith

  poll_until-Polls :
      (more started : ℕ) (w : Console)
      → timeout + started < w.now + period * more
      → Polls more w (poll_until timeout period late ask (suc more) started w)
  unfolding poll_until
  poll_until-Polls zero started w h =
      let over : timeout < w.now - started = grind arith in
      rw (lt→ltb _ _ over) (late_holds, Goes-stay Q w w (omega arith) refl)
  poll_until-Polls (suc more) started w h = elim (Bool-cases (ltb timeout (w.now - started))) [
    | inl e ↦ rw e (
      late_holds,
      Goes-more Q 0 (suc more) w w (omega arith) (Goes-stay Q w w (omega arith) refl),
    )
    | inr e ↦ rw e (
        after_ask-Polls more w (ask w).0 (ask w).1
          (poll_until timeout period late ask (suc more) started) (asks.gives w) (asks.goes w)
          (λ s.
            poll_until-Polls more started _
              (omega (arith, s.onward, (asks.goes w).onward, next_round more))))
  ]

  -- The clock is read, and the loop has the fuel for `rounds` rounds.
  pub Meets-poll_until :
      (rounds : ℕ)
      → timeout < period * rounds
      → Meets Q R rounds P
          (read_clock >>= λ started. poll_until timeout period late ask (suc rounds) started)
  unfolding ◌>>=◌
  Meets-poll_until rounds h = record {
    gives = λ w. (poll_until-Polls rounds w.now w (omega (arith, h))).0;
    goes = λ w. (poll_until-Polls rounds w.now w (omega (arith, h))).1;
  }

-- The round n answers with a value, the rounds before it with none, and each begins before the
-- time-out.
module _ {E A : Type 0} (timeout period : ℕ) (ask : M E (Option A)) (started : ℕ) (a : A) where
  abbrev pub Comes : ℕ → Console → Type 0
  Comes zero w = (w.now ≤ timeout + started) × ((ask w).0 ≡ ok (some a))
  Comes (suc n) w =
      (w.now ≤ timeout + started) × ((ask w).0 ≡ ok none) × Comes n (slept period (ask w).1)

module _ (Q : ServiceCall → Type 0) {E A : Type 0} (R : E → Type 0) (P : A → Type 0)
    (timeout period : ℕ) (late : E) (ask : M E (Option A)) (asks : Meets Q R 1 (Holds P) ask)
    (started : ℕ) (a : A) where
  in_time : (w : Console) → w.now ≤ timeout + started → ltb timeout (w.now - started) ≡ false
  in_time w h = ground arith

  poll_until-Comes :
      (n more : ℕ) (w : Console)
      → timeout + started < w.now + period * more
      → Comes timeout period ask started a n w
      → (poll_until timeout period late ask (suc more) started w).0 ≡ ok a
  unfolding poll_until
  poll_until-Comes zero more w h (soon, e) = rw (in_time w soon, e) refl
  poll_until-Comes (suc n) zero w h (soon, e, rest) = elim (never w h soon) [ ]
    where
      never : (w : Console) → timeout + started < w.now + period * 0 → w.now ≤ timeout + started → ⊥
      never w h k = grind arith
  poll_until-Comes (suc n) (suc more) w h (soon, e, rest) =
      rw (in_time w soon, e)
        (poll_until-Comes n more (slept period (ask w).1)
          (omega (arith, next more, (asks.goes w).onward)) rest)
    where
      next : (more : ℕ) → period * suc more ≡ period + period * more
      next more = grind arith

module _ (Q : ServiceCall → Type 0) {E A : Type 0} (R : E → Type 0) (P : A → Type 0)
    (timeout period : ℕ) (late : E) (ask : M E (Option A)) (asks : Meets Q R 1 (Holds P) ask) where
  pub read_clock-Comes :
      (rounds n : ℕ) (w : Console) (a : A)
      → timeout < period * rounds
      → Comes timeout period ask w.now a n w
      → ((read_clock >>= λ started. poll_until timeout period late ask (suc rounds) started) w).0
        ≡ ok a
  unfolding ◌>>=◌
  read_clock-Comes rounds n w a h comes =
      poll_until-Comes Q R P timeout period late ask asks w.now a n rounds w (omega (arith, h))
        comes
