-- ===== src/Agent/Sync/Known.antt =====
-- agent/src/main.rs, peer_sync_loop: the peers that are known after an iteration.
use quiltc.Prelude.{
  ℕ, String, ◌≡◌, refl, Bool, true, false, not, ◌&&◌, ◌||◌, Option, none, some, List, [], ◌∷◌, Res,
  ok, err, str_eq, str_eq_iff, str_eq_refl, keep, arith, Bool-cases, inl, inr,
}
use quiltc.Prelude.Sets.{member, member-insert, member-remove, member-keep}
use quiltc.Prelude.Maps.{lookup}
use quiltc.Agent.Address.{parse_ipv4}
use quiltc.Agent.Peers.{
  Mesh, AgentState, add_peer, after_fdb, add_fdb_entry, remove_peer, remove_at, call_inject_route,
  call_remove_route,
}
use quiltc.Agent.Sync.{
  Node, PeerInfo, current_peers, subnets, connect, discover, discover_all, forget, forget_all, gone,
  sync,
}

abbrev pub has : String → List String → Bool
has = member str_eq

or_later : {b : Bool} (a : Bool) → b ≡ true → (a || b) ≡ true
or_later a h = ground arith

dropped : (b : Bool) → b ≡ true → not b ≡ false
dropped b h = ground arith

-- If the test fails for every element, none is kept.
keep-none :
    (p : String → Bool) (xs : List String)
    → ((s : String) → has s xs ≡ true → p s ≡ false)
    → keep p xs ≡ []
keep-none p [] h = refl
keep-none p (x ∷ xs) h =
    let here : p x ≡ false = h x (rw (str_eq_refl x) refl) in
    rw here (keep-none p xs (λ s k. h s (or_later (str_eq s x) k)))

module _ (m : Mesh) where
  open m use {Env}

  pub after_fdb_known :
      (subnet : String) (ip : ℕ) (r : Res {0} Unit × Env) (st : AgentState Env)
      → (after_fdb m subnet ip r st).1.known_peers ≡ st.known_peers
  after_fdb_known subnet ip (ok u, e) st = refl
  after_fdb_known subnet ip (err x, e) st = refl

  connect_known :
      (p : PeerInfo) (o : Option ℕ) (st : AgentState Env)
      → (connect m p o st).known_peers ≡ st.known_peers
  unfolding call_inject_route add_peer
  connect_known p none st = refl
  connect_known p (some ip) st = after_fdb_known p.subnet ip (add_fdb_entry m ip st.env) st

  pub remove_at_known :
      (subnet : String) (o : Option ℕ) (st : AgentState Env)
      → (remove_at m subnet o st).1.known_peers ≡ st.known_peers
  remove_at_known subnet none st = refl
  remove_at_known subnet (some ip) st = refl

  has-discover :
      (s : String) (p : PeerInfo) (st : AgentState Env)
      → has s (discover m p st).known_peers ≡ (str_eq s p.subnet || has s st.known_peers)
  unfolding discover
  has-discover s p st = elim (Bool-cases (has p.subnet st.known_peers)) [
    | inl e ↦ elim (Bool-cases (str_eq s p.subnet)) [
      | inl k ↦ let q = (str_eq_iff s p.subnet).0 k in rw (e, k) (rw q e)
      | inr k ↦ rw (e, k) refl
    ]
    | inr e ↦
        rw (e, connect_known p (parse_ipv4 p.host_ip) st)
          (member-insert str_eq str_eq_iff p.subnet s st.known_peers)
  ]

  has-discover_all :
      (s : String) (ps : List PeerInfo) (st : AgentState Env)
      → has s (discover_all m ps st).known_peers ≡ (has s (subnets ps) || has s st.known_peers)
  unfolding discover_all
  has-discover_all s [] st = refl
  has-discover_all s (p ∷ ps) st =
      rw (has-discover_all s ps (discover m p st), has-discover s p st) (ground arith)

  has-forget :
      (s subnet : String) (st : AgentState Env)
      → has s (forget m subnet st).known_peers ≡ (not (str_eq s subnet) && has s st.known_peers)
  unfolding forget call_remove_route remove_peer
  has-forget s subnet st =
      rw (remove_at_known subnet (lookup subnet st.peers) st)
        (member-remove str_eq str_eq_iff subnet s st.known_peers)

  has-forget_all :
      (s : String) (ss : List String) (st : AgentState Env)
      → has s (forget_all m ss st).known_peers ≡ (not (has s ss) && has s st.known_peers)
  unfolding forget_all
  has-forget_all s [] st = ground arith
  has-forget_all s (t ∷ ss) st =
      rw (has-forget_all s ss (forget m t st), has-forget s t st) (ground arith)

  -- After an iteration that got the list of nodes, the known peers' subnets are those of the other
  -- nodes that are up, whichever of the calls failed.
  pub sync_known :
      (own : String) (nodes : List Node) (st : AgentState Env) (s : String)
      → has s (sync m own nodes st).known_peers ≡ has s (subnets (current_peers own nodes))
  unfolding sync
  sync_known own nodes st s =
      let peers = current_peers own nodes in
      let st' = discover_all m peers st in
      rw
        (
          has-forget_all s (gone m st'.known_peers (subnets peers)) st',
          member-keep str_eq str_eq_iff (λ t. not (has t (subnets peers))) s st'.known_peers,
          has-discover_all s peers st,
        )
        (ground arith)

  discover_all_known :
      (ps : List PeerInfo) (st : AgentState Env)
      → ((s : String) → has s (subnets ps) ≡ true → has s st.known_peers ≡ true)
      → discover_all m ps st ≡ st
  unfolding discover_all discover
  discover_all_known [] st h = refl
  discover_all_known (p ∷ ps) st h =
      let here : has p.subnet st.known_peers ≡ true = h p.subnet (rw (str_eq_refl p.subnet) refl) in
      rw here (discover_all_known ps st (λ s k. h s (or_later (str_eq s p.subnet) k)))

  -- An iteration does nothing if the known peers' subnets are those of the other nodes that are
  -- up: no call is made, also if a call for one of them failed before or its address is another.
  pub sync_settled :
      (own : String) (nodes : List Node) (st : AgentState Env)
      → ((s : String) → has s st.known_peers ≡ has s (subnets (current_peers own nodes)))
      → sync m own nodes st ≡ st
  unfolding sync forget_all
  sync_settled own nodes st h =
      let peers = current_peers own nodes in
      rw
        (
          discover_all_known peers st (λ s k. rw (h s) k),
          keep-none (λ s. not (has s (subnets peers))) st.known_peers
              (λ s k. dropped (has s (subnets peers)) (rw (h s) at k)),
        )
        refl
