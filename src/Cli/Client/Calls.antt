-- ===== src/Cli/Client/Calls.antt =====
-- cli/src/http_client.rs: every operation of Client is one call at most, and ends.
use quiltc.Prelude.{
  ℕ, suc, ◌+◌, ◌≤◌, String, ◌≡◌, refl, ◌∙◌, Option, none, some, List, [], ◌∷◌, ◌++◌, length, arith,
  Bool-cases, inl, inr,
}
use mathlib.Core.List.{append_assoc}
use quiltc.Prelude.Text.{is_empty}
use quiltc.Control.Json.{Value}
use quiltc.Cli.Http.{
  Method, get, Ending, received, request_failed, refused, Exchange, ErrorResponse,
}
use quiltc.Cli.Http.Retries.{send_json_bytes_lem}
use quiltc.Cli.Console.{Platform, ServiceCall, Console, M, ◌>>=◌, print, text, json_value}
use quiltc.Cli.Console.Contracts.{
  Gives, Goes, Meets, Meets-bind, Meets-bail, Meets-pure, Meets-some_or, Meets-print,
  Meets-write_file,
}
use quiltc.Cli.Client.{
  Client, Headers, recorded, print_bytes, request_headers, build_url, send_attempts, finished,
  call_bytes, send_json, stream_to_stdout, download_to_file, refused_text,
}

-- The headers that a command adds of itself: none, or the idempotency key.
abbrev pub IsOwn : Headers → Type 0
IsOwn [] = Unit
IsOwn ((name, value) ∷ []) = name ≡ "idempotency-key"
IsOwn (h ∷ k ∷ hs) = ⊥

-- A predicate of every call with a method, a path, headers and a body, however often it is tried
abbrev pub Covers :
    (ServiceCall → Type 0) → Platform → Client → Method → String → Headers → Option Value → Type 0
Covers Q p c method path headers body =
    (url : String) (n : ℕ)
    → p.join_url c.base_url path ≡ some url
    → n ≤ suc c.retries
    → Q (record {
      method = method;
      url = url;
      headers = request_headers p c headers;
      body = body;
      attempts = n;
    })

module _ (p : Platform) (c : Client) (Q : ServiceCall → Type 0) (R : String → Type 0)
    (fails : (e : String) → R e) where
  recorded-Meets :
      (method : Method) (url : String) (headers : Headers) (body : Option Value) (w : Console)
      (o : Option Exchange) (m : ℕ)
      → ((e : Exchange) × (o ≡ some e) × (e.requests ≤ m))
      → ((n : ℕ)
          → n ≤ m
          → Q (record { method = method; url = url; headers = headers; body = body; attempts = n }))
      → Gives R (λ e. Unit) (recorded method url headers body w o).0
        × Goes Q 1 w (recorded method url headers body w o).1
  recorded-Meets method url headers body w o m (e, same, most) q = rw same (
    tt,
    record {
      onward = omega arith;
      new_calls = _;
      grows = refl;
      holds = (q e.requests most, tt);
      bounded = omega arith;
    },
  )

  Meets-exchange :
      (retries : ℕ) (method : Method) (url : String) (headers : Headers) (body : Option Value)
      → ((n : ℕ)
          → n ≤ suc retries
          → Q (record {
            method = method;
            url = url;
            headers = request_headers p c headers;
            body = body;
            attempts = n;
          }))
      → Meets Q R 1 (λ e. Unit) (send_attempts p c retries method url headers body)
  unfolding send_attempts
  Meets-exchange retries method url headers body q = record {
    gives = λ w. (both w).0;
    goes = λ w. (both w).1;
  }
    where
      both :
          (w : Console)
          → Gives R (λ e. Unit) (send_attempts p c retries method url headers body w).0
            × Goes Q 1 w (send_attempts p c retries method url headers body w).1
      both w =
          let (e, same, least, most) =
            send_json_bytes_lem
              (record { parse_error = p.parse_error; replies = w.replies (length w.calls) }) method
              retries in
          recorded-Meets method url (request_headers p c headers) body w _ _ (e, same, most)
            (λ n l. q n l)

  Meets-finished :
      (say : ℕ → Option ErrorResponse → String → String) (e : Ending)
      → Meets Q R 0 (λ b. Unit) (finished p c say e)
  Meets-finished say (received b) = Meets-pure Q R _ b tt
  Meets-finished say request_failed = Meets-bail Q R _ _ (fails _)
  Meets-finished say (refused status e b) = Meets-bail Q R _ _ (fails _)

  Meets-build_url :
      (path : String)
      → Meets Q R 0 (λ url. p.join_url c.base_url path ≡ some url) (build_url p c path)
  unfolding build_url
  Meets-build_url path = Meets-some_or Q R _ _ _ (fails _) (λ url e. e)

  module _ (method : Method) (path : String) (headers : Headers) (body : Option Value)
      (covers : Covers Q p c method path headers body) where
    pub Meets-call : Meets Q R 1 (λ b. Unit) (call_bytes p c method path headers body)
    unfolding call_bytes
    Meets-call = Meets-bind Q R _ _ 0 1 _ _ (Meets-build_url path) (λ url u.
        Meets-bind Q R _ _ 1 0 _ _
          (Meets-exchange c.retries method url headers body (λ n l. covers url n u l))
          (λ e t. Meets-finished _ e))

    pub Meets-send_json : Meets Q R 1 (λ b. Unit) (send_json p c method path headers body)
    unfolding send_json print_bytes
    Meets-send_json = Meets-bind Q R _ _ 1 0 _ _ Meets-call (λ b t. printed b)
      where
        said :
            (b : String) (o : Option Value)
            → Meets Q R 0
                (λ a. Unit)
                (elim o [ none ↦ print (text b) | some v ↦ print (json_value v) ])
        said b none = Meets-print Q R _
        said b (some v) = Meets-print Q R _

        printed : (b : String) → Meets Q R 0 (λ a. Unit) (print_bytes p b)
        printed b = elim (Bool-cases (is_empty b)) [
          | inl e ↦ rw e (Meets-print Q R _)
          | inr e ↦ rw e (said b (p.from_text b))
        ]

    pub Meets-stream : Meets Q R 1 (λ b. Unit) (stream_to_stdout p c method path headers body)
    unfolding stream_to_stdout
    Meets-stream = Meets-bind Q R _ _ 0 1 _ _ (Meets-build_url path) (λ url u.
        Meets-bind Q R _ _ 1 0 _ _
          (Meets-exchange c.retries method url headers body (λ n l. covers url n u l))
          (λ e t. Meets-bind Q R _ _ 0 0 _ _ (Meets-finished _ e) (λ b t. Meets-print Q R _)))

  pub Meets-download :
      (path : String) (headers : Headers) (out_path : String)
      → Covers Q p c get path headers none
      → Meets Q R 1 (λ b. Unit) (download_to_file p c path headers out_path)
  unfolding download_to_file
  Meets-download path headers out_path covers =
      Meets-bind Q R _ _ 0 1 _ _ (Meets-build_url path) (λ url u.
        Meets-bind Q R _ _ 1 0 _ _
          (Meets-exchange 0 get url headers none (λ n l. covers url n u (omega (arith, l))))
          (λ e t.
            Meets-bind Q R _ _ 0 0 _ _ (Meets-finished _ e)
              (λ b t. Meets-write_file Q R _ _ _ (fails _))))

module _ (p : Platform) (c : Client) where
  abbrev Free : {A : Type 0} → ℕ → M String A → Type 0
  Free n m = Meets (λ (x : ServiceCall). Unit) (λ e. Unit) n (λ a. Unit) m

  -- What a command sends that begins with a call
  pub first_call :
      (method : Method) (path url : String) (headers : Headers) (body : Option Value) (k : ℕ)
      (rest : String → M String Unit) (w : Console)
      → ((b : String) → Free k (rest b))
      → p.join_url c.base_url path ≡ some url
      → (n : ℕ) × (more : List ServiceCall) × ((call_bytes p c method path headers body >>= rest)
            w).1.calls
          ≡ w.calls
            ++ record {
              method = method;
              url = url;
              headers = request_headers p c headers;
              body = body;
              attempts = n;
            }
              ∷ more
  unfolding call_bytes build_url send_attempts ◌>>=◌
  first_call method path url headers body k rest w after joined =
      let (e, same, least, most) =
        send_json_bytes_lem
          (record { parse_error = p.parse_error; replies = w.replies (length w.calls) }) method
          c.retries in
      let g : Goes (λ x. Unit) (0 + k) _ _ =
        (Meets-bind (λ (x : ServiceCall). Unit) (λ e. Unit) _ _ 0 k _ rest
            (Meets-finished p c (λ x. Unit) (λ e. Unit) (λ e. tt) (refused_text p method url)
              e.ending)
            (λ b t. after b)).goes
          (recorded method url (request_headers p c headers) body w (some e)).1 in
      (e.requests, g.new_calls, rw (joined, same) (g.grows ∙ append_assoc w.calls _ g.new_calls))
