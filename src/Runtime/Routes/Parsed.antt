-- ===== src/Runtime/Routes/Parsed.antt =====
-- runtime/src/route_manager.rs: a tracked destination is a network, and so it can be removed.
use quiltc.Prelude.{
  String, ◌≡◌, refl, true, not, ◌||◌, ◌&&◌, Option, none, some, is_ok, is_some, str_eq, str_eq_iff,
  Bool-cases, inl, inr, arith,
}
use quiltc.Prelude.Maps.{lookup}
use quiltc.Runtime.Routes.{Netlink, Routing, add_route, add_parsed, remove_route}
use quiltc.Runtime.Routes.Laws.{is_settled, lookup-add_route, lookup-remove_route, remove_parsed_ok}

module _ (n : Netlink) where
  open n use {Net, Kernel, parse, route_del}

  -- Every tracked destination is a network.
  abbrev pub IsParsed : Routing Kernel → Type 0
  IsParsed st = (s : String) → is_some (lookup s st.routes) ≡ true → is_some (parse s) ≡ true

  add_parsed_some :
      (dest interface : String) (o : Option Net) (st : Routing Kernel)
      → is_ok (add_parsed n dest interface o st).0 ≡ true
      → is_some o ≡ true
  add_parsed_some dest interface none st h = cc
  add_parsed_some dest interface (some s) st h = refl

  added_some :
      (dest interface s : String) (st : Routing Kernel)
      → is_ok (add_route n dest interface st).0 ≡ true
      → str_eq dest s ≡ true
      → is_some (parse s) ≡ true
  unfolding add_route
  added_some dest interface s st h e =
      let p : dest ≡ s = (str_eq_iff dest s).0 e in
      rw (← p) (add_parsed_some dest interface (parse dest) st h)

  -- A destination that is tracked after a route is added is the added one, a network, or was
  -- tracked before.
  pub add_route_tracked :
      (dest interface s : String) (st : Routing Kernel)
      → is_some (lookup s (add_route n dest interface st).1.routes) ≡ true
      → ((str_eq dest s && is_some (parse s)) || is_some (lookup s st.routes)) ≡ true
  add_route_tracked dest interface s st h =
      let k = rw (lookup-add_route n dest interface s st) at h in
      elim (Bool-cases (is_ok (add_route n dest interface st).0)) [
        | inl o ↦ elim (Bool-cases (str_eq dest s)) [
          | inl e ↦ rw (e, added_some dest interface s st o e) refl
          | inr e ↦
              let old : is_some (lookup s st.routes) ≡ true = rw (o, e) at k in rw (e, old) refl
        ]
        | inr o ↦ let old : is_some (lookup s st.routes) ≡ true = rw o at k in rw old (ground arith)
      ]

  module _ (settles : (s : Net) (k : Kernel) → is_settled (route_del s k).0 ≡ true) where
    removed_ok :
        (dest : String) (st : Routing Kernel)
        → is_some (parse dest) ≡ true
        → is_ok (remove_route n dest st).0 ≡ true
    unfolding remove_route
    removed_ok dest st p = remove_parsed_ok n settles dest (parse dest) st p

    -- If the kernel refuses no removal but for a route that is not there, a destination is not
    -- tracked after its route is removed, and the others are as they were.
    pub remove_route_untracks :
        (dest d : String) (st : Routing Kernel)
        → IsParsed st
        → is_some (lookup d (remove_route n dest st).1.routes)
          ≡ (not (str_eq dest d) && is_some (lookup d st.routes))
    remove_route_untracks dest d st h =
        rw (lookup-remove_route n dest d st) (elim (Bool-cases (str_eq dest d)) [
          | inl e ↦
              let p : dest ≡ d = (str_eq_iff dest d).0 e in
              elim (Bool-cases (is_some (lookup d st.routes))) [
                | inl t ↦
                    let net : is_some (parse dest) ≡ true = rw p (h d t) in
                    rw (removed_ok dest st net, e) refl
                | inr t ↦ elim (Bool-cases (is_ok (remove_route n dest st).0)) [
                  | inl o ↦ rw (o, e) refl
                  | inr o ↦ rw (o, e, t) refl
                ]
              ]
          | inr e ↦ elim (Bool-cases (is_ok (remove_route n dest st).0)) [
            | inl o ↦ rw (o, e) refl
            | inr o ↦ rw (o, e) refl
          ]
        ])
