-- ===== src/Agent/Routed/Removed.antt =====
-- agent/src/main.rs and runtime/src/route_manager.rs, where the kernel refuses no removal of a route
-- but of one that is not there: the routes that the agent leaves in the runtime.
use quiltc.Prelude.{
  ℕ, String, ◌≡◌, refl, sym, ◌∙◌, Bool, true, false, not, ◌&&◌, List, [], ◌∷◌, Res, ok, err,
  is_some, any, str_eq, str_eq_iff, Bool-cases, inl, inr, arith,
}
use quiltc.Prelude.Sets.{member-remove}
use quiltc.Prelude.Maps.{lookup, keys}
use quiltc.Runtime.Routes.{Netlink, new_manager}
use quiltc.Runtime.Routes.Laws.{is_settled}
use quiltc.Runtime.Routes.Parsed.{IsParsed, remove_route_untracks}
use quiltc.Runtime.Service.{remove_route_rpc}
use quiltc.Agent.Peers.{remove_peer, call_remove_route}
use quiltc.Agent.Sync.{
  Node, current_peers, subnets, discover_all, forget, forget_all, gone, sync, peer_sync_step,
  remove_routes, remove_peers, graceful_shutdown,
}
use quiltc.Agent.Sync.Known.{has, sync_known, remove_at_known}
use quiltc.Agent.Sync.Table.{str_eq_symm}
use quiltc.Agent.Routed.{Forwarding, mesh_of}
use quiltc.Agent.Routed.Tracked.{
  Beside, tracked, IsRouted, routed-IsParsed, remove_at_routes, discover_all-IsRouted,
}

any-keys :
    (s : String) (peers : List (String × ℕ))
    → any (λ k. str_eq k s) (keys peers) ≡ is_some (lookup s peers)
any-keys s [] = refl
any-keys s (p ∷ peers) = elim (Bool-cases (str_eq p.0 s)) [
  | inl e ↦ rw e refl
  | inr e ↦ rw e (any-keys s peers)
]

module _ (f : Forwarding) (n : Netlink) where
  -- Iterations of peer_sync_loop, with the replies to list_nodes
  abbrev pub iterations : String → List (Res (List Node)) → Beside f n → Beside f n
  iterations own [] st = st
  iterations own (r ∷ rs) st = iterations own rs (peer_sync_step (mesh_of f n) own r st)

  -- An agent and a runtime that have just started, beside a forwarding table and a kernel
  abbrev pub started : f.Table → n.Kernel → Beside f n
  started t k = record { env = (t, new_manager n k); peers = []; known_peers = [] }

module _ (f : Forwarding) (n : Netlink)
    (settles : (s : n.Net) (k : n.Kernel) → is_settled (n.route_del s k).0 ≡ true) where
  tracked-call_remove_route :
      (t s : String) (st : Beside f n)
      → IsParsed n st.env.1
      → tracked f n s (call_remove_route (mesh_of f n) t st).1
        ≡ (not (str_eq t s) && tracked f n s st)
  unfolding call_remove_route remove_route_rpc
  tracked-call_remove_route t s st h = remove_route_untracks n settles t s st.env.1 h

  tracked-forget :
      (t s : String) (st : Beside f n)
      → IsRouted f n st
      → tracked f n s (forget (mesh_of f n) t st) ≡ (not (str_eq t s) && tracked f n s st)
  unfolding forget remove_peer
  tracked-forget t s st h =
      let at = (remove_peer (mesh_of f n) t st).1 in
      let same : at.env.1 ≡ st.env.1 = remove_at_routes f n t (lookup t st.peers) st in
      let parsed : IsParsed n at.env.1 = rw same (routed-IsParsed f n st h) in
      tracked-call_remove_route t s at parsed ∙ rw same refl

  left :
      (e k t net : Bool)
      → (not e && t) ≡ true
      → (t ≡ true → (k && net) ≡ true)
      → ((not e && k) && net) ≡ true
  left e k false net h g = ground arith
  left e k true net h g = let q = g refl in ground arith

  forget-IsRouted :
      (t : String) (st : Beside f n) → IsRouted f n st → IsRouted f n (forget (mesh_of f n) t st)
  unfolding forget call_remove_route remove_peer
  forget-IsRouted t st h s there =
      rw
        (
          remove_at_known (mesh_of f n) t (lookup t st.peers) st,
          member-remove str_eq str_eq_iff t s st.known_peers,
        )
        (left (str_eq s t) (has s st.known_peers) (tracked f n s st) (is_some (n.parse s))
          (rw (str_eq_symm s t) (sym (tracked-forget t s st h) ∙ there)) (h s))

  forget_all-IsRouted :
      (ts : List String) (st : Beside f n)
      → IsRouted f n st
      → IsRouted f n (forget_all (mesh_of f n) ts st)
  unfolding forget_all
  forget_all-IsRouted [] st h = h
  forget_all-IsRouted (t ∷ ts) st h =
      forget_all-IsRouted ts (forget (mesh_of f n) t st) (forget-IsRouted t st h)

  sync-IsRouted :
      (own : String) (nodes : List Node) (st : Beside f n)
      → IsRouted f n st
      → IsRouted f n (sync (mesh_of f n) own nodes st)
  unfolding sync
  sync-IsRouted own nodes st h =
      let peers = current_peers own nodes in
      let st' = discover_all (mesh_of f n) peers st in
      forget_all-IsRouted (gone (mesh_of f n) st'.known_peers (subnets peers)) st'
        (discover_all-IsRouted f n peers st h)

  iterations-IsRouted :
      (own : String) (rs : List (Res (List Node))) (st : Beside f n)
      → IsRouted f n st
      → IsRouted f n (iterations f n own rs st)
  unfolding peer_sync_step
  iterations-IsRouted own [] st h = h
  iterations-IsRouted own (err x ∷ rs) st h = iterations-IsRouted own rs st h
  iterations-IsRouted own (ok nodes ∷ rs) st h =
      iterations-IsRouted own rs (sync (mesh_of f n) own nodes st) (sync-IsRouted own nodes st h)

  -- If the kernel refuses no removal of a route but of one that is not there, and each call of the
  -- runtime arrives, then after any iterations of an agent and a runtime that have just started,
  -- and one more with a listing, a subnet whose route the runtime tracks is that of another node
  -- that the listing shows up, whichever additions of routes and changes of the forwarding table
  -- fail.
  pub iterations-tracked :
      (own : String) (rs : List (Res (List Node))) (t : f.Table) (k : n.Kernel) (nodes : List Node)
      (s : String)
      → tracked f n s (sync (mesh_of f n) own nodes (iterations f n own rs (started f n t k)))
        ≡ true
      → has s (subnets (current_peers own nodes)) ≡ true
  unfolding new_manager
  iterations-tracked own rs t k nodes s there =
      let st = iterations f n own rs (started f n t k) in
      let routed : IsRouted f n st =
        iterations-IsRouted own rs (started f n t k) (λ u h. let lie : false ≡ true = h in cc) in
      let both = sync-IsRouted own nodes st routed s there in
      sym (sync_known (mesh_of f n) own nodes st s) ∙ ground arith

  tracked-remove_routes :
      (ts : List String) (s : String) (st : Beside f n)
      → IsParsed n st.env.1
      → tracked f n s (remove_routes (mesh_of f n) ts st)
        ≡ (not (any (λ t. str_eq t s) ts) && tracked f n s st)
  unfolding remove_routes
  tracked-remove_routes [] s st h = refl
  tracked-remove_routes (t ∷ ts) s st h =
      let st' = (call_remove_route (mesh_of f n) t st).1 in
      let parsed : IsParsed n st'.env.1 =
        λ u k. h u (let both = sym (tracked-call_remove_route t u st h) ∙ k in ground arith) in
      rw (tracked-remove_routes ts s st' parsed, tracked-call_remove_route t s st h) (ground arith)

  remove_peers_routes :
      (ts : List String) (st : Beside f n) → (remove_peers (mesh_of f n) ts st).env.1 ≡ st.env.1
  unfolding remove_peers remove_peer
  remove_peers_routes [] st = refl
  remove_peers_routes (t ∷ ts) st =
      remove_peers_routes ts (remove_peer (mesh_of f n) t st).1
      ∙ remove_at_routes f n t (lookup t st.peers) st

  -- Under the same conditions the runtime tracks after the agent's shutdown exactly the routes that
  -- it tracked before and whose subnets are not in the agent's table of peers: those of the peers
  -- whose forwarding entries could not be added stay.
  pub tracked-graceful_shutdown :
      (st : Beside f n) (s : String)
      → IsRouted f n st
      → tracked f n s (graceful_shutdown (mesh_of f n) st)
        ≡ (not (is_some (lookup s st.peers)) && tracked f n s st)
  unfolding graceful_shutdown
  tracked-graceful_shutdown st s h =
      rw
        (
          remove_peers_routes (keys st.peers) (remove_routes (mesh_of f n) (keys st.peers) st),
          ← any-keys s st.peers,
        )
        (tracked-remove_routes (keys st.peers) s st (routed-IsParsed f n st h))
