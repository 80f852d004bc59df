-- ===== src/Runtime/Tests.antt =====
-- runtime/src: the theorems of the runtime at a small subnet and a kernel that refuses nothing.
use quiltc.Prelude.{
  ℕ, suc, err, ◌/◌, String, ◌≡◌, refl, false, Option, none, some, List, [], ◌∷◌, ok, ◌==◌, str_eq,
  if◌then◌else◌,
}
use quiltc.Prelude.Maps.{lookup}
use quiltc.Runtime.Ipam.{
  Ipnet, IpamState, configure, allocate, release, new_ipam, configure_subnet, allocate_ip,
  allocate_from,
}
use quiltc.Runtime.Ipam.Pool.{has, run, pool, given_once, allocate_ip_lem, configure_subnet_frees}
use quiltc.Runtime.Ipam.Hosts.{IsPool, run-IsPool}
use quiltc.Runtime.Routes.{changed, no_change, Netlink}
use quiltc.Runtime.Main.{Args, Server, Rpc, inject, remove, bind, server_tls, main}
use quiltc.Runtime.Main.Cleanup.{main_routes}

abbrev node_text : String
node_text = "10.42.1.0/24"

abbrev parse_net : String → Option ℕ
parse_net s =
    if str_eq s "10.42.0.0/16" then some 0 else if str_eq s node_text then some 1 else none

-- Two networks: the cluster's, 0, and a node's, 1, of which two hosts are listed.
abbrev nets : Ipnet
nets = record {
  Net = ℕ;
  parse = parse_net;
  show = λ s. node_text;
  prefix_len = λ s. if s == 0 then 16 else 24;
  network = λ s. if s == 0 then 170524672 else 170524928;
  contains = λ s a. a / 65536 == 2602;
  hosts = λ s. 170524929 ∷ 170524930 ∷ [];
  show_len = λ k. "16";
}

abbrev with_one : IpamState ℕ
with_one = pool nets 1 (170524929 ∷ [])

given_once_example :
    has 170524930
      (run nets (allocate ∷ release 170524929 ∷ allocate ∷ []) (allocate_ip nets with_one).1).0
    ≡ false
unfolding allocate_ip allocate_from
given_once_example =
    given_once nets with_one 170524930 (allocate ∷ release 170524929 ∷ allocate ∷ []) refl
      (refl, (refl, (refl, tt)))

allocate_ip_lem_example :
    allocate_ip nets with_one ≡ (ok 170524930, pool nets 1 (170524930 ∷ 170524929 ∷ []))
allocate_ip_lem_example = allocate_ip_lem nets 1 (170524929 ∷ [])

configure_subnet_frees_example :
    (allocate_ip nets (configure_subnet nets node_text with_one).1).0 ≡ ok 170524929
configure_subnet_frees_example =
    configure_subnet_frees nets node_text 1 0 170524929 (170524930 ∷ []) with_one refl refl refl
      refl refl

run-IsPool_example :
    IsPool nets (run nets (configure node_text ∷ allocate ∷ release 5 ∷ []) (new_ipam nets)).1
run-IsPool_example = run-IsPool nets (configure node_text ∷ allocate ∷ release 5 ∷ [])

-- A kernel that counts the changes asked of it.
abbrev pub kernel : Netlink
kernel = record {
  Net = ℕ;
  Kernel = ℕ;
  parse = parse_net;
  link_index = λ i k. if str_eq i "vxlan100" then ok (some 7) else ok none;
  route_add = λ s index k. (changed, suc k);
  route_del = λ s k. (no_change, suc k);
}

-- A server that reads no files and ends by the signal.
abbrev server : Server ℕ
server = record {
  new_connection = ok tt;
  parse_addr = λ s. ok 50051;
  read = λ path. err "no such file";
  show_path = λ path. path;
  tls_config = λ tls. ok tt;
  serve = λ addr tls. ok tt;
}

abbrev args : Args
args = record {
  grpc_addr = "127.0.0.1:50051";
  log_level = "info";
  tls_cert = none;
  tls_key = none;
  tls_ca = none;
}

abbrev calls : List Rpc
calls = inject node_text "vxlan100" ∷ remove "x" ∷ []

main_routes_example :
    ((main server nets kernel args calls 0).0 ≡ ok tt)
    × (lookup node_text (main server nets kernel args calls 0).1.route_manager.routes ≡ none)
unfolding bind server_tls
main_routes_example =
    main_routes server nets kernel (λ net k. refl) args calls 0 50051 none node_text refl refl
