-- ===== src/Runtime/Service.antt =====
-- runtime/src/service.rs: the three calls that the agent makes, each of which answers with a flag
-- and an error's text.
use Prim.Native.String.{◌++◌}
use quiltc.Prelude.{
  String, ◌≡◌, refl, Bool, true, false, none, Res, ok, err, is_ok, str_eq, if◌then◌else◌,
  Bool-cases, inl, inr,
}
use quiltc.Prelude.Maps.{lookup}
use quiltc.Runtime.Ipam.{Ipnet, IpamState, configure_subnet}
use quiltc.Runtime.Routes.{Netlink, Routing, add_route, remove_route}
use quiltc.Runtime.Routes.Laws.{lookup-add_route, lookup-remove_route}

-- ConfigureNodeSubnetResponse, InjectRouteResponse and RemoveRouteResponse
pub record RpcResponse : Type 0 where
  pub success : Bool
  pub error : String

abbrev respond : String → Res {0} Unit → RpcResponse
respond context (ok u) = record { success = true; error = "" }
respond context (err e) = record { success = false; error = context ++ e }

success-respond : (context : String) (r : Res {0} Unit) → (respond context r).success ≡ is_ok r
success-respond context (ok u) = refl
success-respond context (err e) = refl

unfoldable pub configure_node_subnet :
    (i : Ipnet) → String → IpamState i.Net → RpcResponse × IpamState i.Net
configure_node_subnet i subnet st = (
  respond "Failed to configure subnet: " (configure_subnet i subnet st).0,
  (configure_subnet i subnet st).1,
)

unfoldable pub inject_route :
    (n : Netlink) → String → String → Routing n.Kernel → RpcResponse × Routing n.Kernel
inject_route n destination via_interface st = (
  respond "Failed to inject route: " (add_route n destination via_interface st).0,
  (add_route n destination via_interface st).1,
)

unfoldable pub remove_route_rpc :
    (n : Netlink) → String → Routing n.Kernel → RpcResponse × Routing n.Kernel
remove_route_rpc n destination st = (
  respond "Failed to remove route: " (remove_route n destination st).0,
  (remove_route n destination st).1,
)

-- After a route is injected with success and removed with success its destination is not tracked,
-- and every other destination's entry is the one that it had before.
remove_route_rpc-inject_route :
    (n : Netlink) (dest interface d : String) (st : Routing n.Kernel)
    → (inject_route n dest interface st).0.success ≡ true
    → (remove_route_rpc n dest (inject_route n dest interface st).1).0.success ≡ true
    → lookup d (remove_route_rpc n dest (inject_route n dest interface st).1).1.routes
      ≡ (if str_eq dest d then none else lookup d st.routes)
unfolding inject_route remove_route_rpc
remove_route_rpc-inject_route n dest interface d st h k =
    let added = add_route n dest interface st in
    let h' = rw (success-respond "Failed to inject route: " added.0) at h in
    let k' = rw (success-respond "Failed to remove route: " (remove_route n dest added.1).0) at k in
    rw
      (
        rw k' at (lookup-remove_route n dest d added.1),
        rw h' at (lookup-add_route n dest interface d st),
      )
      (elim (Bool-cases (str_eq dest d)) [ inl e ↦ rw e refl | inr e ↦ rw e refl ])
