-- ===== src/Runtime/Ipam.antt =====
-- runtime/src/ipam.rs: the allocation of container addresses within the node's subnet. A value of
-- std's `Ipv4Addr` is a u32.
pub mod Pool
pub mod Hosts
use Prim.Native.String.{◌++◌}
use quiltc.Prelude.{
  ℕ, String, Bool, not, Option, none, some, List, [], ◌∷◌, Res, ok, err, ◌==◌, if◌then◌else◌,
}
use quiltc.Prelude.Sets.{member, insert, remove}

-- The crate ipnet: its networks and what the manager calls of them.
pub record Ipnet : Type 1 where
  pub Net : Type 0
  pub parse : String → Option Net
  pub show : Net → String
  pub prefix_len : Net → ℕ
  pub network : Net → ℕ
  pub contains : Net → ℕ → Bool
  pub hosts : Net → List ℕ
  pub show_len : ℕ → String

pub record IpamState (Net : Type 0) : Type 0 where
  pub subnet : Option Net
  pub allocated : List ℕ

-- A call on the manager, which its lock makes a step.
pub data Call : Type 0 where
  configure : String → Call
  allocate : Call
  release : ℕ → Call

abbrev pub given : Res ℕ → List ℕ
given (ok a) = a ∷ []
given (err e) = []

abbrev pub cluster_cidr : String
cluster_cidr = "10.42.0.0/16"

module _ (n : Ipnet) where
  open n use {Net, parse, show, prefix_len, network, contains, hosts, show_len}

  -- IpamManager::new
  unfoldable pub new_ipam : IpamState Net
  new_ipam = record { subnet = none; allocated = [] }

  abbrev pub check_cluster : Net → Option Net → IpamState Net → Res {0} Unit × IpamState Net
  check_cluster subnet none st = (err "called `Option::unwrap()` on a `None` value", st)
  check_cluster subnet (some cluster) st =
      if not (contains cluster (network subnet))
      then (
        err ("Subnet " ++ (show subnet ++ (" must be within cluster CIDR " ++ show cluster))),
        st,
      )
      else (ok tt, record { subnet = some subnet; allocated = [] })

  abbrev pub check_subnet : Option Net → IpamState Net → Res {0} Unit × IpamState Net
  check_subnet none st = (err "Invalid subnet CIDR format", st)
  check_subnet (some subnet) st =
      if not (prefix_len subnet == 24)
      then (err ("Subnet must be /24, got /" ++ show_len (prefix_len subnet)), st)
      else check_cluster subnet (parse cluster_cidr) st

  unfoldable pub configure_subnet : String → IpamState Net → Res {0} Unit × IpamState Net
  configure_subnet subnet_str st = check_subnet (parse subnet_str) st

  -- The loop over the hosts.
  unfoldable pub allocate_from : Net → List ℕ → IpamState Net → Res ℕ × IpamState Net
  allocate_from subnet [] st = (err ("No available IPs in subnet " ++ show subnet), st)
  allocate_from subnet (host ∷ rest) st =
      if not (member (λ a b. a == b) host st.allocated)
      then (ok host, record st { allocated = insert (λ a b. a == b) host st.allocated })
      else allocate_from subnet rest st

  abbrev pub allocate_in : Option Net → IpamState Net → Res ℕ × IpamState Net
  allocate_in none st = (err "Subnet not configured - call configure_subnet first", st)
  allocate_in (some subnet) st = allocate_from subnet (hosts subnet) st

  unfoldable pub allocate_ip : IpamState Net → Res ℕ × IpamState Net
  unfolding allocate_from
  allocate_ip st = allocate_in st.subnet st

  unfoldable pub release_ip : ℕ → IpamState Net → Res {0} Unit × IpamState Net
  release_ip ip st = (ok tt, record st { allocated = remove (λ a b. a == b) ip st.allocated })

  -- The state after a call, and the address that it gave.
  unfoldable pub call : Call → IpamState Net → List ℕ × IpamState Net
  unfolding configure_subnet allocate_ip release_ip
  call (configure s) st = ([], (configure_subnet s st).1)
  call allocate st = (given (allocate_ip st).0, (allocate_ip st).1)
  call (release a) st = ([], (release_ip a st).1)
