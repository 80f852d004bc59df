-- ===== src/Runtime/Main.antt =====
-- runtime/src/main.rs: the start of the server, the calls it serves, and the clean-up.
pub mod Cleanup
use Prim.Native.String.{◌++◌}
use quiltc.Prelude.{String, Option, none, some, List, [], ◌∷◌, Res, ok, err}
use quiltc.Runtime.Ipam.{Ipnet, IpamState, new_ipam}
use quiltc.Runtime.Routes.{Netlink, Routing, new_manager, cleanup_all_routes}
use quiltc.Runtime.Service.{configure_node_subnet, inject_route, remove_route_rpc}

pub record Args : Type 0 where
  pub grpc_addr : String
  pub log_level : String
  pub tls_cert : Option String
  pub tls_key : Option String
  pub tls_ca : Option String

-- A certificate, its key, and a client's authority.
pub record ServerTlsConfig : Type 0 where
  pub certificate : String
  pub key : String
  pub client_ca_root : Option String

-- The crate tonic's server, std's files and addresses, and rtnetlink's connection. `serve` is how
-- the server ends, by the signal or by an error.
pub record Server (Addr : Type 0) : Type 0 where
  pub new_connection : Res {0} Unit
  pub parse_addr : String → Res Addr
  pub read : String → Res String
  pub show_path : String → String
  pub tls_config : ServerTlsConfig → Res {0} Unit
  pub serve : Addr → Option ServerTlsConfig → Res {0} Unit

abbrev and_then : {A B : Type 0} → Res A → (A → Res B) → Res B
and_then (err e) f = err e
and_then (ok a) f = f a

abbrev context : {A : Type 0} → String → Res A → Res A
context text (err e) = err text
context text (ok a) = ok a

pub data Rpc : Type 0 where
  configure : String → Rpc
  inject : String → String → Rpc
  remove : String → Rpc

pub record RuntimeState (Net Kernel : Type 0) : Type 0 where
  pub ipam : IpamState Net
  pub route_manager : Routing Kernel

module _ {Addr : Type 0} (s : Server Addr) where
  abbrev read_file : String → String → Res String
  read_file what path =
      context ("Failed to read " ++ what ++ ": " ++ s.show_path path) (s.read path)

  abbrev read_ca : Option String → Res (Option String)
  read_ca none = ok none
  read_ca (some path) = and_then (read_file "CA cert" path) (λ ca. ok (some ca))

  abbrev tls_with : Option String → Option String → Option String → Res (Option ServerTlsConfig)
  tls_with (some cert_path) (some key_path) ca_path =
      and_then (read_file "TLS cert" cert_path) (λ cert.
        and_then (read_file "TLS key" key_path) (λ key. and_then (read_ca ca_path) (λ ca.
          let tls : ServerTlsConfig = record {
            certificate = cert;
            key = key;
            client_ca_root = ca;
          } in
          and_then (context "Failed to configure TLS" (s.tls_config tls)) (λ u. ok (some tls)))))
  tls_with none key ca = ok none
  tls_with (some cert_path) none ca = ok none

  -- Without both a certificate and a key the server runs without TLS, also if an authority is given.
  unfoldable pub server_tls : Args → Res (Option ServerTlsConfig)
  server_tls a = tls_with a.tls_cert a.tls_key a.tls_ca

  -- What is done before the server serves, and the server's end
  unfoldable pub bind : Args → Res (Addr × Option ServerTlsConfig)
  unfolding server_tls
  bind a = and_then (context "Failed to create route manager" s.new_connection) (λ u.
      and_then (context "Invalid gRPC address" (s.parse_addr a.grpc_addr))
        (λ addr. and_then (server_tls a) (λ tls. ok (addr, tls))))

  module _ (i : Ipnet) (n : Netlink) where
    unfoldable pub answer : Rpc → RuntimeState i.Net n.Kernel → RuntimeState i.Net n.Kernel
    answer (configure subnet) st = record st { ipam = (configure_node_subnet i subnet st.ipam).1 }
    answer (inject d interface) st = record st {
      route_manager = (inject_route n d interface st.route_manager).1;
    }
    answer (remove d) st = record st { route_manager = (remove_route_rpc n d st.route_manager).1 }

    unfoldable pub answers : List Rpc → RuntimeState i.Net n.Kernel → RuntimeState i.Net n.Kernel
    answers [] st = st
    answers (r ∷ rs) st = answers rs (answer r st)

    abbrev pub begin : n.Kernel → RuntimeState i.Net n.Kernel
    begin k = record { ipam = new_ipam i; route_manager = new_manager n k }

    abbrev pub ended :
        Res {0} Unit → RuntimeState i.Net n.Kernel → Res {0} Unit × RuntimeState i.Net n.Kernel
    ended (err e) st = (err "gRPC server failed", st)
    ended (ok u) st = (ok tt, record st { route_manager = cleanup_all_routes n st.route_manager })

    abbrev pub served :
        Res (Addr × Option ServerTlsConfig)
        → List Rpc
        → n.Kernel
        → Res {0} Unit × RuntimeState i.Net n.Kernel
    served (err e) rs k = (err e, begin k)
    served (ok (addr, tls)) rs k = ended (s.serve addr tls) (answers rs (begin k))

    -- main, with the calls that arrive while the server serves
    unfoldable pub main : Args → List Rpc → n.Kernel → Res {0} Unit × RuntimeState i.Net n.Kernel
    unfolding bind
    main a rs k = served (bind a) rs k
