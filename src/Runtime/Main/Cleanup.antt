-- ===== src/Runtime/Main/Cleanup.antt =====
-- runtime/src/main.rs: the routes that the runtime tracks when it ends.
use quiltc.Prelude.{
  String, ◌≡◌, refl, Bool, true, false, Option, none, List, [], ◌∷◌, ok, is_some, All, str_eq,
  str_eq_refl, Bool-cases, inl, inr, arith,
}
use quiltc.Prelude.Maps.{lookup, keys}
use quiltc.Runtime.Ipam.{Ipnet}
use quiltc.Runtime.Routes.{Netlink, new_manager}
use quiltc.Runtime.Routes.Laws.{is_settled, cleanup_all_routes_lem}
use quiltc.Runtime.Routes.Parsed.{IsParsed, add_route_tracked, remove_route_untracks}
use quiltc.Runtime.Service.{inject_route, remove_route_rpc}
use quiltc.Runtime.Main.{
  Args, ServerTlsConfig, Server, Rpc, configure, inject, remove, RuntimeState, answer, answers,
  begin, bind, main,
}

All-keys :
    (p : String → Bool) (m : List (String × String))
    → ((s : String) → is_some (lookup s m) ≡ true → p s ≡ true)
    → All (λ k. p k ≡ true) (keys m)
All-keys p [] h = tt
All-keys p (e ∷ m) h = (
  h e.0 (rw (str_eq_refl e.0) refl),
  All-keys p m
      (λ s k. elim (Bool-cases (str_eq e.0 s)) [ inl q ↦ h s (rw q refl) | inr q ↦ h s (rw q k) ]),
)

module _ {Addr : Type 0} (s : Server Addr) (i : Ipnet) (n : Netlink)
    (settles : (net : n.Net) (k : n.Kernel) → is_settled (n.route_del net k).0 ≡ true) where
  answer-IsParsed :
      (r : Rpc) (st : RuntimeState i.Net n.Kernel)
      → IsParsed n st.route_manager
      → IsParsed n (answer s i n r st).route_manager
  unfolding answer inject_route remove_route_rpc
  answer-IsParsed (configure subnet) st h d k = h d k
  answer-IsParsed (inject d interface) st h d' k =
      let here = add_route_tracked n d interface d' st.route_manager k in
      elim (Bool-cases (is_some (lookup d' st.route_manager.routes))) [
        | inl e ↦ h d' e
        | inr e ↦ ground arith
      ]
  answer-IsParsed (remove d) st h d' k =
      let gone = remove_route_untracks n settles d d' st.route_manager h in h d' (ground arith)

  answers-IsParsed :
      (rs : List Rpc) (st : RuntimeState i.Net n.Kernel)
      → IsParsed n st.route_manager
      → IsParsed n (answers s i n rs st).route_manager
  unfolding answers
  answers-IsParsed [] st h = h
  answers-IsParsed (r ∷ rs) st h = answers-IsParsed rs (answer s i n r st) (answer-IsParsed r st h)

  -- If the kernel refuses no removal of a route but of one that is not there, and the runtime
  -- starts and its server ends by the signal, then main returns without an error and the runtime
  -- tracks no route, whatever calls it served and whatever the destinations in them were.
  pub main_routes :
      (a : Args) (rs : List Rpc) (k : n.Kernel) (addr : Addr) (tls : Option ServerTlsConfig)
      (d : String)
      → bind s a ≡ ok (addr, tls)
      → s.serve addr tls ≡ ok tt
      → ((main s i n a rs k).0 ≡ ok tt)
        × (lookup d (main s i n a rs k).1.route_manager.routes ≡ none)
  unfolding main new_manager
  main_routes a rs k addr tls d bound served_ok =
      let st = answers s i n rs (begin s i n k) in
      let parsed : IsParsed n st.route_manager =
        answers-IsParsed rs (begin s i n k) (λ t h. let lie : false ≡ true = h in cc) in
      (
        rw (bound, served_ok) refl,
        rw (bound, served_ok)
            (cleanup_all_routes_lem n settles st.route_manager d
              (All-keys (λ t. is_some (n.parse t)) st.route_manager.routes parsed)),
      )
