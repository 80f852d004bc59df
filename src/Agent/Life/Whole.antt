-- ===== src/Agent/Life/Whole.antt =====
-- agent/src/main.rs: what holds in the whole life of the agent, whichever of its calls fail.
use quiltc.Prelude.{
  ℕ, String, ◌≡◌, refl, ◌∙◌, sym, Bool, true, false, ◌||◌, Option, none, some, List, [], ◌∷◌, Res,
  ok, err, is_some, str_eq, str_eq_iff, arith, Bool-cases, inl, inr, if◌then◌else◌,
}
use quiltc.Prelude.Sets.{member-insert, member-remove}
use quiltc.Prelude.Maps.{lookup, put, lookup-put}
use quiltc.Agent.Address.{parse_ipv4}
use quiltc.Agent.Peers.{
  Mesh, AgentState, add_peer, after_fdb, add_fdb_entry, remove_peer, call_inject_route,
  call_remove_route,
}
use quiltc.Agent.Sync.{
  Node, PeerInfo, current_peers, subnets, connect, know, discover, discover_all, forget, forget_all,
  gone, sync, peer_sync_step,
}
use quiltc.Agent.Sync.Known.{has, sync_known, after_fdb_known, remove_at_known}
use quiltc.Agent.Sync.Table.{str_eq_symm, graceful_shutdown_lem, lookup-remove_at}
use quiltc.Agent.Host.{Host, RegisterNodeResponse}
use quiltc.Agent.ControlClient.{list_nodes, deregister}
use quiltc.Agent.Life.{Args, Round, beat, peer_sync, round, rounds, shutdown, fresh, main, start}

or_right : (a b : Bool) → b ≡ true → (a || b) ≡ true
or_right a b h = ground arith

module _ (m : Mesh) where
  open m use {Env}

  -- Every subnet in the table is a known peer's.
  abbrev pub IsKnown : AgentState Env → Type 0
  IsKnown st = (s : String) → is_some (lookup s st.peers) ≡ true → has s st.known_peers ≡ true

  after_fdb-IsKnown :
      (subnet : String) (ip : ℕ) (r : Res {0} Unit × Env) (st : AgentState Env) (s : String)
      → IsKnown st
      → is_some (lookup s (after_fdb m subnet ip r st).1.peers) ≡ true
      → (str_eq s subnet || has s st.known_peers) ≡ true
  after_fdb-IsKnown subnet ip (err x, e) st s h k = or_right _ _ (h s k)
  after_fdb-IsKnown subnet ip (ok u, e) st s h k = elim (Bool-cases (str_eq subnet s)) [
    | inl q ↦ let p : str_eq s subnet ≡ true = str_eq_symm s subnet ∙ q in rw p refl
    | inr q ↦
        let there : is_some (lookup s (put subnet ip st.peers)) ≡ true = k in
        let moved : is_some (if str_eq subnet s then some ip else lookup s st.peers) ≡ true =
          rw (lookup-put subnet s ip st.peers) at there in
        let old : is_some (lookup s st.peers) ≡ true = rw q at moved in or_right _ _ (h s old)
  ]

  know-IsKnown :
      (p : PeerInfo) (o : Option ℕ) (st : AgentState Env)
      → IsKnown st
      → IsKnown (know m p.subnet (connect m p o st))
  unfolding call_inject_route add_peer
  know-IsKnown p none st h s k =
      rw (member-insert str_eq str_eq_iff p.subnet s st.known_peers) (or_right _ _ (h s k))
  know-IsKnown p (some ip) st h s k =
      rw
        (
          after_fdb_known m p.subnet ip (add_fdb_entry m ip st.env) st,
          member-insert str_eq str_eq_iff p.subnet s st.known_peers,
        )
        (after_fdb-IsKnown p.subnet ip (add_fdb_entry m ip st.env) st s h k)

  discover-IsKnown : (p : PeerInfo) (st : AgentState Env) → IsKnown st → IsKnown (discover m p st)
  unfolding discover
  discover-IsKnown p st h = elim (Bool-cases (has p.subnet st.known_peers)) [
    | inl e ↦ rw e h
    | inr e ↦ rw e (know-IsKnown p (parse_ipv4 p.host_ip) st h)
  ]

  discover_all-IsKnown :
      (ps : List PeerInfo) (st : AgentState Env) → IsKnown st → IsKnown (discover_all m ps st)
  unfolding discover_all
  discover_all-IsKnown [] st h = h
  discover_all-IsKnown (p ∷ ps) st h =
      discover_all-IsKnown ps (discover m p st) (discover-IsKnown p st h)

  forget-IsKnown :
      (subnet : String) (st : AgentState Env) → IsKnown st → IsKnown (forget m subnet st)
  unfolding forget call_remove_route remove_peer
  forget-IsKnown subnet st h s k =
      let left : is_some (if str_eq subnet s then none else lookup s st.peers) ≡ true =
        rw (lookup-remove_at m s subnet (lookup subnet st.peers) st refl) at k in
      rw
        (
          remove_at_known m subnet (lookup subnet st.peers) st,
          member-remove str_eq str_eq_iff subnet s st.known_peers,
          str_eq_symm s subnet,
        )
        (elim (Bool-cases (str_eq subnet s)) [
          | inl e ↦ let lie : false ≡ true = rw e at left in cc
          | inr e ↦
              let old : is_some (lookup s st.peers) ≡ true = rw e at left in rw (e, h s old) refl
        ])

  forget_all-IsKnown :
      (ss : List String) (st : AgentState Env) → IsKnown st → IsKnown (forget_all m ss st)
  unfolding forget_all
  forget_all-IsKnown [] st h = h
  forget_all-IsKnown (t ∷ ss) st h = forget_all-IsKnown ss (forget m t st) (forget-IsKnown t st h)

  sync-IsKnown :
      (own : String) (nodes : List Node) (st : AgentState Env)
      → IsKnown st
      → IsKnown (sync m own nodes st)
  unfolding sync
  sync-IsKnown own nodes st h =
      let peers = current_peers own nodes in
      let st' = discover_all m peers st in
      forget_all-IsKnown (gone m st'.known_peers (subnets peers)) st'
        (discover_all-IsKnown peers st h)

  peer_sync_step-IsKnown :
      (own : String) (r : Res (List Node)) (st : AgentState Env)
      → IsKnown st
      → IsKnown (peer_sync_step m own r st)
  unfolding peer_sync_step
  peer_sync_step-IsKnown own (err e) st h = h
  peer_sync_step-IsKnown own (ok nodes) st h = sync-IsKnown own nodes st h

module _ (m : Mesh) (h : Host m.Env) (replace : String → String → String → String) (a : Args) where
  open m use {Env}

  round-IsKnown :
      (own : String) (t : Round) (st : AgentState Env)
      → IsKnown m st
      → IsKnown m (round m h replace a own t st)
  unfolding round
  round-IsKnown own beat st k = k
  round-IsKnown own peer_sync st k =
      let r = list_nodes Env h a.control_plane st.env in
      peer_sync_step-IsKnown m own r.0 (record st { env = r.1 }) k

  rounds-IsKnown :
      (own : String) (ts : List Round) (st : AgentState Env)
      → IsKnown m st
      → IsKnown m (rounds m h replace a own ts st)
  unfolding rounds
  rounds-IsKnown own [] st k = k
  rounds-IsKnown own (t ∷ ts) st k =
      rounds-IsKnown own ts (round m h replace a own t st) (round-IsKnown own t st k)

  -- After any rounds of the two loops of an agent that starts with no peers, and then a round of
  -- peer_sync_loop whose listing arrives, a subnet with an entry in the table of peers is that of
  -- another node that the listing shows up, whichever of the earlier and of this round's calls
  -- failed.
  pub rounds-peer_sync :
      (own : String) (ts : List Round) (e e' : Env) (st : AgentState Env) (nodes : List Node)
      (s : String)
      → rounds m h replace a own ts (fresh m h replace a e) ≡ st
      → list_nodes Env h a.control_plane st.env ≡ (ok nodes, e')
      → is_some (lookup s (round m h replace a own peer_sync st).peers) ≡ true
      → has s (subnets (current_peers own nodes)) ≡ true
  unfolding round peer_sync_step
  rounds-peer_sync own ts e e' st nodes s run listed there =
      let st' : AgentState Env = record st { env = e' } in
      let before : IsKnown m (rounds m h replace a own ts (fresh m h replace a e)) =
        rounds-IsKnown own ts (fresh m h replace a e) (λ t p. p) in
      let k : IsKnown m st = rw run at before in
      let at : is_some (lookup s (sync m own nodes st').peers) ≡ true = rw listed at there in
      sym (sync_known m own nodes st' s) ∙ sync-IsKnown m own nodes st' k s at

  -- A start that succeeds is followed by a run of main that returns, for all rounds of the loops,
  -- and then the table of peers is empty, whichever of the rounds' and of the shutdown's calls
  -- failed.
  pub main_peers :
      (ts : List Round) (e e' : Env) (node : RegisterNodeResponse) (s : String)
      → start m h replace a e ≡ (ok node, e')
      → (main m h replace a ts e
          ≡ ok (
              shutdown m h replace a node.node_id
                (rounds m h replace a node.node_id ts (fresh m h replace a e'))))
        × (lookup s
              (shutdown m h replace a node.node_id
                (rounds m h replace a node.node_id ts (fresh m h replace a e'))).peers
            ≡ none)
  unfolding main shutdown
  main_peers ts e e' node s started =
      let last = rounds m h replace a node.node_id ts (fresh m h replace a e') in
      let told : AgentState Env = record last {
        env = (deregister Env h a.control_plane node.node_id last.env).1;
      } in
      (rw started refl, graceful_shutdown_lem m told s)
