-- ===== src/Cli/Http/Retries.antt =====
-- cli/src/http_client.rs: how often a request is sent.
use quiltc.Prelude.{
  ℕ, zero, suc, ◌+◌, ◌≤◌, ◌≡◌, refl, Bool, true, false, ◌&&◌, Option, none, some, List, [], ◌∷◌,
  ◌++◌, leb, leb→le, ◌==◌, arith, Bool-cases, inl, inr, if◌then◌else◌,
}
use quiltc.Cli.Http.{
  Method, HttpReply, HttpWorld, Exchange, is_read, should_retry, after_reply, send_loop,
  send_json_bytes,
}

module _ (w : HttpWorld) (method : Method) (retries : ℕ) where
  -- The call ends, after at least `least` requests and no more than the first and the retries.
  abbrev Ends : ℕ → Option Exchange → Type 0
  Ends least o = (e : Exchange) × (o ≡ some e) × (least ≤ e.requests) × (e.requests ≤ suc retries)

  after_reply-Ends :
      (sent : ℕ) (waits : List ℕ) (r : Option HttpReply) (again : ℕ → Option Exchange)
      → sent ≤ retries
      → ((wait : ℕ) → suc sent ≤ retries → Ends (suc sent) (again wait))
      → Ends (suc sent) (after_reply w method retries sent waits r again)
  after_reply-Ends sent waits none again low h = (_, refl, omega arith, omega arith)
  after_reply-Ends sent waits (some r) again low h =
      elim (Bool-cases (leb 200 r.status && leb r.status 299)) [
        | inl e ↦ rw e (_, refl, omega arith, omega arith)
        | inr e ↦ elim (Bool-cases (leb (suc sent) retries)) [
          | inl k ↦ elim (Bool-cases (should_retry method r.status)) [
            | inl s ↦ rw (e, k, s) (h _ (leb→le (suc sent) retries k))
            | inr s ↦ rw (e, k, s) (_, refl, omega arith, omega arith)
          ]
          | inr k ↦ rw (e, k) (_, refl, omega arith, omega arith)
        ]
      ]

  send_loop-Ends :
      (fuel sent : ℕ) (waits : List ℕ)
      → sent ≤ retries
      → suc retries ≤ sent + fuel
      → Ends (suc sent) (send_loop w method retries fuel sent waits)
  unfolding send_loop
  send_loop-Ends zero sent waits low enough = ground arith
  send_loop-Ends (suc fuel) sent waits low enough =
      after_reply-Ends sent waits (w.replies sent) _ low (λ wait more.
        relax (send_loop-Ends fuel (suc sent) (waits ++ wait ∷ []) more (omega arith)))
    where
      relax : {o : Option Exchange} → Ends (suc (suc sent)) o → Ends (suc sent) o
      relax (e, p, l, u) = (e, p, omega arith, u)

  -- Whatever the service answers, the call ends: after at least one request, and at most one more
  -- than the retries.
  pub send_json_bytes_lem : Ends 1 (send_json_bytes w method retries)
  unfolding send_json_bytes
  send_json_bytes_lem = send_loop-Ends (suc retries) 0 [] (omega arith) (omega arith)

  after_reply_once :
      (r : Option HttpReply) (again : ℕ → Option Exchange)
      → is_read method ≡ false
      → ((q : HttpReply) → r ≡ some q → (q.status == 429) ≡ false)
      → (e : Exchange) × (after_reply w method retries 0 [] r again ≡ some e)
        × (e.requests ≡ 1)
        × (e.waits ≡ [])
  unfolding should_retry
  after_reply_once none again m h = (_, refl, refl, refl)
  after_reply_once (some r) again m h = elim (Bool-cases (leb 200 r.status && leb r.status 299)) [
    | inl e ↦ rw e (_, refl, refl, refl)
    | inr e ↦
        let never : should_retry method r.status ≡ false =
          rw (h r refl) (rw m (never_twice (leb 500 r.status && leb r.status 599))) in
        elim (Bool-cases (leb 1 retries)) [
          | inl k ↦ rw (e, k, never) (_, refl, refl, refl)
          | inr k ↦ rw (e, k) (_, refl, refl, refl)
        ]
  ]
    where
      never_twice : (b : Bool) → (if b then false else false) ≡ false
      never_twice true = refl
      never_twice false = refl

  -- A request that is neither a GET nor a DELETE is sent once, without a wait, if its answer is
  -- not 429.
  pub send_json_bytes_once :
      is_read method ≡ false
      → ((q : HttpReply) → w.replies 0 ≡ some q → (q.status == 429) ≡ false)
      → (e : Exchange) × (send_json_bytes w method retries ≡ some e)
        × (e.requests ≡ 1)
        × (e.waits ≡ [])
  unfolding send_json_bytes send_loop
  send_json_bytes_once m h = after_reply_once (w.replies 0) _ m h
