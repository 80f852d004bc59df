-- ===== src/Runtime/Routes.antt =====
-- runtime/src/route_manager.rs, the Linux build: the routes to remote subnets, and the table in
-- which the manager tracks them.
pub mod Laws
pub mod Parsed
use Prim.Native.String.{◌++◌}
use quiltc.Prelude.{
  ℕ, String, Bool, false, Option, none, some, List, [], ◌∷◌, Res, ok, err, str_eq, if◌then◌else◌,
}
use quiltc.Prelude.Maps.{lookup, put, drop, keys}

-- What the kernel answers to a change of its routes: done; no change, since the route was there
-- already (EEXIST) or was not there (ENOENT, ESRCH); or another error.
pub data Answer : Type 0 where
  changed : Answer
  no_change : Answer
  failed : String → Answer

-- The crate ipnet's networks, and the kernel behind the crate rtnetlink.
pub record Netlink : Type 1 where
  pub Net : Type 0
  pub Kernel : Type 0
  pub parse : String → Option Net
  pub link_index : String → Kernel → Res (Option ℕ)
  pub route_add : Net → ℕ → Kernel → Answer × Kernel
  pub route_del : Net → Kernel → Answer × Kernel

-- The kernel, and RouteState's map from destinations to interfaces.
pub record Routing (Kernel : Type 0) : Type 0 where
  pub kernel : Kernel
  pub routes : List (String × String)

-- Whether the destination is tracked with the interface.
abbrev pub is_tracked : Option String → String → Bool
is_tracked none interface = false
is_tracked (some existing_if) interface = str_eq existing_if interface

module _ (n : Netlink) where
  open n use {Net, Kernel, parse, link_index, route_add, route_del}

  -- RouteManager::new, in a kernel as it is found
  unfoldable pub new_manager : Kernel → Routing Kernel
  new_manager k = record { kernel = k; routes = [] }

  abbrev track : String → String → Kernel → Routing Kernel → Routing Kernel
  track destination interface k st = record {
    kernel = k;
    routes = put destination interface st.routes;
  }

  abbrev untrack : String → Kernel → Routing Kernel → Routing Kernel
  untrack destination k st = record { kernel = k; routes = drop destination st.routes }

  abbrev pub after_add :
      String → String → Answer × Kernel → Routing Kernel → Res {0} Unit × Routing Kernel
  after_add destination interface (changed, k) st = (ok tt, track destination interface k st)
  after_add destination interface (no_change, k) st = (ok tt, track destination interface k st)
  after_add destination interface (failed e, k) st =
      (err ("Failed to add route: " ++ e), record st { kernel = k })

  abbrev pub add_via :
      String → String → Net → Res (Option ℕ) → Routing Kernel → Res {0} Unit × Routing Kernel
  add_via destination interface subnet (err e) st = (err "Failed to query interface", st)
  add_via destination interface subnet (ok none) st =
      (err ("Interface '" ++ (interface ++ "' not found")), st)
  add_via destination interface subnet (ok (some index)) st =
      after_add destination interface (route_add subnet index st.kernel) st

  abbrev pub add_parsed :
      String → String → Option Net → Routing Kernel → Res {0} Unit × Routing Kernel
  add_parsed destination interface none st = (err "Invalid destination subnet", st)
  add_parsed destination interface (some subnet) st =
      if is_tracked (lookup destination st.routes) interface
      then (ok tt, st)
      else add_via destination interface subnet (link_index interface st.kernel) st

  unfoldable pub add_route : String → String → Routing Kernel → Res {0} Unit × Routing Kernel
  add_route destination interface st = add_parsed destination interface (parse destination) st

  abbrev pub after_del : String → Answer × Kernel → Routing Kernel → Res {0} Unit × Routing Kernel
  after_del destination (changed, k) st = (ok tt, untrack destination k st)
  after_del destination (no_change, k) st = (ok tt, untrack destination k st)
  after_del destination (failed e, k) st =
      (err ("Failed to remove route: " ++ e), record st { kernel = k })

  abbrev pub remove_parsed : String → Option Net → Routing Kernel → Res {0} Unit × Routing Kernel
  remove_parsed destination none st = (err "Invalid destination subnet", st)
  remove_parsed destination (some subnet) st = after_del destination (route_del subnet st.kernel) st

  unfoldable pub remove_route : String → Routing Kernel → Res {0} Unit × Routing Kernel
  remove_route destination st = remove_parsed destination (parse destination) st

  -- The removals of cleanup_all_routes, whose errors are only logged.
  unfoldable pub remove_all : List String → Routing Kernel → Routing Kernel
  remove_all [] st = st
  remove_all (destination ∷ rest) st = remove_all rest (remove_route destination st).1

  unfoldable pub cleanup_all_routes : Routing Kernel → Routing Kernel
  unfolding remove_all
  cleanup_all_routes st = remove_all (keys st.routes) st
