-- ===== src/Agent/Sync/Table.antt =====
-- agent/src/main.rs and agent/src/overlay/vxlan.rs: the table of VXLAN peers after an iteration
-- and after the shutdown.
use quiltc.Prelude.{
  ℕ, String, ◌≡◌, refl, ◌∙◌, true, Option, none, some, List, [], ◌∷◌, Res, ok, err, is_some, any,
  All, str_eq, str_eq_iff, if◌then◌else◌, arith, Bool-cases, inl, inr,
}
use quiltc.Prelude.Sets.{member-insert, member-remove}
use quiltc.Prelude.Maps.{lookup, put, keys, lookup-put, lookup-drop, lookup-keys}
use quiltc.Agent.Address.{parse_ipv4}
use quiltc.Agent.Peers.{
  Mesh, AgentState, add_peer, after_fdb, add_fdb_entry, remove_peer, remove_at, call_inject_route,
  call_remove_route,
}
use quiltc.Agent.Sync.{
  Node, PeerInfo, current_peers, subnets, connect, know, discover, discover_all, forget, forget_all,
  gone, sync, remove_routes, remove_peers, graceful_shutdown,
}
use quiltc.Agent.Sync.Known.{has, sync_known, after_fdb_known, remove_at_known}

pub str_eq_symm : (s t : String) → str_eq s t ≡ str_eq t s
str_eq_symm s t = elim (Bool-cases (str_eq s t)) [
  | inl e ↦ let p = (str_eq_iff s t).0 e in rw p refl
  | inr e ↦ elim (Bool-cases (str_eq t s)) [
    | inl k ↦ let p = (str_eq_iff t s).0 k in rw p refl
    | inr k ↦ rw (e, k) refl
  ]
]

module _ (m : Mesh) where
  open m use {Env}

  pub lookup-remove_at :
      (s subnet : String) (o : Option ℕ) (st : AgentState Env)
      → lookup subnet st.peers ≡ o
      → lookup s (remove_at m subnet o st).1.peers
        ≡ (if str_eq subnet s then none else lookup s st.peers)
  lookup-remove_at s subnet none st h = elim (Bool-cases (str_eq subnet s)) [
    | inl e ↦ let p = (str_eq_iff subnet s).0 e in rw e (rw p at h)
    | inr e ↦ rw e refl
  ]
  lookup-remove_at s subnet (some ip) st h = lookup-drop subnet s st.peers

  lookup-remove_peers :
      (s : String) (ss : List String) (st : AgentState Env)
      → lookup s (remove_peers m ss st).peers
        ≡ (if any (λ k. str_eq k s) ss then none else lookup s st.peers)
  unfolding remove_peers remove_peer
  lookup-remove_peers s [] st = refl
  lookup-remove_peers s (t ∷ ss) st =
      rw
        (
          lookup-remove_peers s ss (remove_peer m t st).1,
          lookup-remove_at s t (lookup t st.peers) st refl,
        )
        (ground arith)

  remove_routes_peers :
      (ss : List String) (st : AgentState Env) → (remove_routes m ss st).peers ≡ st.peers
  unfolding remove_routes call_remove_route
  remove_routes_peers [] st = refl
  remove_routes_peers (t ∷ ss) st = remove_routes_peers ss (call_remove_route m t st).1

  -- After the shutdown the table of peers has no entry, whichever of the calls failed.
  pub graceful_shutdown_lem :
      (st : AgentState Env) (s : String) → lookup s (graceful_shutdown m st).peers ≡ none
  unfolding graceful_shutdown
  graceful_shutdown_lem st s =
      rw
        (
          lookup-remove_peers s (keys st.peers) (remove_routes m (keys st.peers) st),
          remove_routes_peers (keys st.peers) st,
        )
        (elim (Bool-cases (any (λ k. str_eq k s) (keys st.peers))) [
          | inl e ↦ rw e refl
          | inr e ↦ rw e (lookup-keys s st.peers e)
        ])

  -- The table holds the known peers' subnets.
  abbrev pub IsTabled : AgentState Env → Type 0
  IsTabled st = (s : String) → is_some (lookup s st.peers) ≡ has s st.known_peers

  module _ (adds : (ip : ℕ) (e : Env) → (add_fdb_entry m ip e).0 ≡ ok tt) where
    after_fdb_peers :
        (subnet : String) (ip : ℕ) (r : Res {0} Unit × Env) (st : AgentState Env)
        → r.0 ≡ ok tt
        → (after_fdb m subnet ip r st).1.peers ≡ put subnet ip st.peers
    after_fdb_peers subnet ip (ok u, e) st h = refl
    after_fdb_peers subnet ip (err x, e) st h = cc

    know-IsTabled :
        (p : PeerInfo) (o : Option ℕ) (st : AgentState Env)
        → is_some o ≡ true
        → IsTabled st
        → IsTabled (know m p.subnet (connect m p o st))
    unfolding call_inject_route add_peer
    know-IsTabled p none st k h s = cc
    know-IsTabled p (some ip) st k h s =
        rw
          (
            after_fdb_peers p.subnet ip (add_fdb_entry m ip st.env) st (adds ip st.env),
            after_fdb_known m p.subnet ip (add_fdb_entry m ip st.env) st,
            lookup-put p.subnet s ip st.peers,
            member-insert str_eq str_eq_iff p.subnet s st.known_peers,
            str_eq_symm s p.subnet,
            ← h s,
          )
          (elim (Bool-cases (str_eq p.subnet s)) [ inl e ↦ rw e refl | inr e ↦ rw e refl ])

    discover-IsTabled :
        (p : PeerInfo) (st : AgentState Env)
        → is_some (parse_ipv4 p.host_ip) ≡ true
        → IsTabled st
        → IsTabled (discover m p st)
    unfolding discover
    discover-IsTabled p st k h = elim (Bool-cases (has p.subnet st.known_peers)) [
      | inl e ↦ rw e h
      | inr e ↦ rw e (know-IsTabled p (parse_ipv4 p.host_ip) st k h)
    ]

    discover_all-IsTabled :
        (ps : List PeerInfo) (st : AgentState Env)
        → All (λ p. is_some (parse_ipv4 p.host_ip) ≡ true) ps
        → IsTabled st
        → IsTabled (discover_all m ps st)
    unfolding discover_all
    discover_all-IsTabled [] st k h = h
    discover_all-IsTabled (p ∷ ps) st k h =
        discover_all-IsTabled ps (discover m p st) k.1 (discover-IsTabled p st k.0 h)

    forget-IsTabled :
        (subnet : String) (st : AgentState Env) → IsTabled st → IsTabled (forget m subnet st)
    unfolding forget call_remove_route remove_peer
    forget-IsTabled subnet st h s =
        rw
          (
            lookup-remove_at s subnet (lookup subnet st.peers) st refl,
            remove_at_known m subnet (lookup subnet st.peers) st,
            member-remove str_eq str_eq_iff subnet s st.known_peers,
            str_eq_symm s subnet,
            ← h s,
          )
          (elim (Bool-cases (str_eq subnet s)) [ inl e ↦ rw e refl | inr e ↦ rw e refl ])

    forget_all-IsTabled :
        (ss : List String) (st : AgentState Env) → IsTabled st → IsTabled (forget_all m ss st)
    unfolding forget_all
    forget_all-IsTabled [] st h = h
    forget_all-IsTabled (t ∷ ss) st h =
        forget_all-IsTabled ss (forget m t st) (forget-IsTabled t st h)

    sync-IsTabled :
        (own : String) (nodes : List Node) (st : AgentState Env)
        → All (λ p. is_some (parse_ipv4 p.host_ip) ≡ true) (current_peers own nodes)
        → IsTabled st
        → IsTabled (sync m own nodes st)
    unfolding sync
    sync-IsTabled own nodes st k h =
        let peers = current_peers own nodes in
        let st' = discover_all m peers st in
        forget_all-IsTabled (gone m st'.known_peers (subnets peers)) st'
          (discover_all-IsTabled peers st k h)

    -- If every forwarding entry can be added and the host addresses of the peers are well formed,
    -- an iteration that starts with the known peers' subnets in the table ends with exactly the
    -- subnets of the other nodes that are up in the table, whether or not the entries of the
    -- removed ones could be deleted and the runtime answered.
    pub sync_peers :
        (own : String) (nodes : List Node) (st : AgentState Env)
        → All (λ p. is_some (parse_ipv4 p.host_ip) ≡ true) (current_peers own nodes)
        → IsTabled st
        → (s : String)
        → is_some (lookup s (sync m own nodes st).peers) ≡ has s (subnets (current_peers own nodes))
    sync_peers own nodes st k h s = sync-IsTabled own nodes st k h s ∙ sync_known m own nodes st s
