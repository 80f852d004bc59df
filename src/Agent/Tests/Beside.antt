-- ===== src/Agent/Tests/Beside.antt =====
-- agent/src and runtime/src: the theorems of the agent beside the runtime, at the nodes of the tests.
use quiltc.Prelude.{
  ℕ, ◌≡◌, refl, true, some, [], ◌∷◌, ok, err, str_eq, str_eq_iff, false, Bool-cases, inl, inr,
}
use quiltc.Runtime.Routes.{add_route, new_manager}
use quiltc.Runtime.Service.{inject_route}
use quiltc.Runtime.Tests.{kernel}
use quiltc.Agent.Address.{parse_ipv4}
use quiltc.Agent.Peers.{add_fdb_entry, add_peer, call_inject_route}
use quiltc.Agent.Sync.{
  current_peers, subnets, sync, discover, discover_all, forget_all, peer_sync_step,
  graceful_shutdown,
}
use quiltc.Agent.Sync.Known.{has}
use quiltc.Agent.Routed.{Forwarding, mesh_of}
use quiltc.Agent.Routed.Tracked.{Beside, tracked, IsRouted}
use quiltc.Agent.Routed.Removed.{iterations-tracked, tracked-graceful_shutdown}
use quiltc.Agent.Tests.{nodes}

-- A forwarding table that takes no entry.
abbrev full : Forwarding
full = record {
  Table = ℕ;
  link = λ t. ok (some 7);
  append = λ index ip t. (err "no space", t);
  delete = λ index ip t. (err "no such entry", t);
}

iterations-tracked_example : has "10.42.1.0/24" (subnets (current_peers "me" nodes)) ≡ true
unfolding peer_sync_step sync discover_all discover add_peer add_fdb_entry call_inject_route
    parse_ipv4 forget_all current_peers inject_route add_route new_manager
iterations-tracked_example =
    iterations-tracked full kernel (λ s k. refl) "me" (err "unreachable" ∷ ok nodes ∷ []) 0 0 nodes
      "10.42.1.0/24" refl

-- A peer whose forwarding entry could not be added.
abbrev routed : Beside full kernel
routed = record {
  env = (0, record { kernel = 1; routes = ("10.42.1.0/24", "vxlan100") ∷ [] });
  peers = [];
  known_peers = "10.42.1.0/24" ∷ [];
}

routed-IsRouted : IsRouted full kernel routed
routed-IsRouted s h = elim (Bool-cases (str_eq "10.42.1.0/24" s)) [
  | inl e ↦ let p : "10.42.1.0/24" ≡ s = (str_eq_iff "10.42.1.0/24" s).0 e in rw (← p) refl
  | inr e ↦ let lie : false ≡ true = rw e at h in cc
]

tracked-graceful_shutdown_example :
    tracked full kernel "10.42.1.0/24" (graceful_shutdown (mesh_of full kernel) routed) ≡ true
tracked-graceful_shutdown_example =
    tracked-graceful_shutdown full kernel (λ s k. refl) routed "10.42.1.0/24" routed-IsRouted
