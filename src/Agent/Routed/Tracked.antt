-- ===== src/Agent/Routed/Tracked.antt =====
-- agent/src/main.rs and runtime/src/route_manager.rs: which routes the runtime tracks while the
-- agent synchronises and after it shuts down.
use quiltc.Prelude.{
  ℕ, String, ◌≡◌, refl, Bool, true, false, ◌||◌, ◌&&◌, Option, none, some, List, [], ◌∷◌, Res, ok,
  err, is_some, str_eq, str_eq_iff, Bool-cases, inl, inr, arith,
}
use quiltc.Prelude.Sets.{member-insert}
use quiltc.Prelude.Maps.{lookup}
use quiltc.Runtime.Routes.{Netlink, Routing, add_route}
use quiltc.Runtime.Routes.Parsed.{IsParsed, add_route_tracked}
use quiltc.Runtime.Service.{inject_route}
use quiltc.Agent.Address.{parse_ipv4}
use quiltc.Agent.Peers.{
  Mesh, AgentState, fdb_via, add_fdb_entry, remove_fdb_entry, add_peer, after_fdb, remove_at,
  call_inject_route,
}
use quiltc.Agent.Sync.{PeerInfo, connect, know, discover, discover_all}
use quiltc.Agent.Sync.Known.{has, after_fdb_known}
use quiltc.Agent.Sync.Table.{str_eq_symm}
use quiltc.Agent.Routed.{Forwarding, mesh_of}

module _ (f : Forwarding) (n : Netlink) where
  abbrev m : Mesh
  m = mesh_of f n

  abbrev pub Beside : Type 0
  Beside = AgentState (f.Table × Routing n.Kernel)

  -- Whether the runtime tracks a route to the subnet.
  abbrev pub tracked : String → Beside → Bool
  tracked s st = is_some (lookup s st.env.1.routes)

  add_fdb_entry_routes :
      (ip : ℕ) (o : Res (Option ℕ)) (e : f.Table × Routing n.Kernel)
      → (fdb_via m m.fdb_add ip o e).1.1 ≡ e.1
  add_fdb_entry_routes ip (err x) e = refl
  add_fdb_entry_routes ip (ok none) e = refl
  add_fdb_entry_routes ip (ok (some index)) e = refl

  remove_fdb_entry_routes :
      (ip : ℕ) (o : Res (Option ℕ)) (e : f.Table × Routing n.Kernel)
      → (fdb_via m m.fdb_del ip o e).1.1 ≡ e.1
  remove_fdb_entry_routes ip (err x) e = refl
  remove_fdb_entry_routes ip (ok none) e = refl
  remove_fdb_entry_routes ip (ok (some index)) e = refl

  after_fdb_env :
      (subnet : String) (ip : ℕ) (r : Res {0} Unit × (f.Table × Routing n.Kernel)) (st : Beside)
      → (after_fdb m subnet ip r st).1.env ≡ r.1
  after_fdb_env subnet ip (ok u, e) st = refl
  after_fdb_env subnet ip (err x, e) st = refl

  add_peer_routes :
      (subnet : String) (ip : ℕ) (st : Beside) → (add_peer m subnet ip st).1.env.1 ≡ st.env.1
  unfolding add_peer add_fdb_entry
  add_peer_routes subnet ip st =
      rw (after_fdb_env subnet ip (fdb_via m m.fdb_add ip (f.link st.env.0) st.env) st)
        (add_fdb_entry_routes ip (f.link st.env.0) st.env)

  pub remove_at_routes :
      (subnet : String) (o : Option ℕ) (st : Beside) → (remove_at m subnet o st).1.env.1 ≡ st.env.1
  unfolding remove_fdb_entry
  remove_at_routes subnet none st = refl
  remove_at_routes subnet (some ip) st = remove_fdb_entry_routes ip (f.link st.env.0) st.env

  connect_tracked :
      (p : PeerInfo) (o : Option ℕ) (s : String) (st : Beside)
      → tracked s (connect m p o st) ≡ true
      → ((str_eq p.subnet s && is_some (n.parse s)) || tracked s st) ≡ true
  unfolding call_inject_route inject_route
  connect_tracked p none s st h = rw h (ground arith)
  connect_tracked p (some ip) s st h =
      let at : is_some (lookup s (add_route n p.subnet "vxlan100" st.env.1).1.routes) ≡ true =
        rw (add_peer_routes p.subnet ip st) at h in
      add_route_tracked n p.subnet "vxlan100" s st.env.1 at

  connect_known :
      (p : PeerInfo) (o : Option ℕ) (st : Beside) → (connect m p o st).known_peers ≡ st.known_peers
  unfolding call_inject_route add_peer
  connect_known p none st = refl
  connect_known p (some ip) st = after_fdb_known m p.subnet ip (add_fdb_entry m ip st.env) st

  -- Every tracked route is one to a network, and of a known peer.
  abbrev pub IsRouted : Beside → Type 0
  IsRouted st =
      (s : String) → tracked s st ≡ true → (has s st.known_peers && is_some (n.parse s)) ≡ true

  pub routed-IsParsed : (st : Beside) → IsRouted st → IsParsed n st.env.1
  routed-IsParsed st h s t = let k = h s t in ground arith

  joined :
      (e k t net : Bool)
      → ((e && net) || t) ≡ true
      → (t ≡ true → (k && net) ≡ true)
      → ((e || k) && net) ≡ true
  joined e k false net h g = ground arith
  joined e k true net h g = let q = g refl in ground arith

  know-IsRouted :
      (p : PeerInfo) (o : Option ℕ) (st : Beside)
      → IsRouted st
      → IsRouted (know m p.subnet (connect m p o st))
  know-IsRouted p o st h s t =
      rw (connect_known p o st, member-insert str_eq str_eq_iff p.subnet s st.known_peers)
        (joined (str_eq s p.subnet) (has s st.known_peers) (tracked s st) (is_some (n.parse s))
          (rw (str_eq_symm s p.subnet) (connect_tracked p o s st t)) (h s))

  discover-IsRouted : (p : PeerInfo) (st : Beside) → IsRouted st → IsRouted (discover m p st)
  unfolding discover
  discover-IsRouted p st h = elim (Bool-cases (has p.subnet st.known_peers)) [
    | inl e ↦ rw e h
    | inr e ↦ rw e (know-IsRouted p (parse_ipv4 p.host_ip) st h)
  ]

  pub discover_all-IsRouted :
      (ps : List PeerInfo) (st : Beside) → IsRouted st → IsRouted (discover_all m ps st)
  unfolding discover_all
  discover_all-IsRouted [] st h = h
  discover_all-IsRouted (p ∷ ps) st h =
      discover_all-IsRouted ps (discover m p st) (discover-IsRouted p st h)
