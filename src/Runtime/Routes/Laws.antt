-- ===== src/Runtime/Routes/Laws.antt =====
-- runtime/src/route_manager.rs: what the calls leave in the table of tracked routes.
use quiltc.Prelude.{
  ℕ, String, ◌≡◌, refl, Bool, true, false, Option, none, some, List, [], ◌∷◌, Res, ok, err, is_ok,
  str_eq, str_eq_refl, if◌then◌else◌, Bool-cases, inl, inr, str_eq_iff, arith, All, any, is_some,
}
use quiltc.Prelude.Maps.{lookup-keys, lookup, keys, lookup-put, lookup-drop}
use quiltc.Runtime.Routes.{
  Answer, changed, no_change, failed, Netlink, Routing, add_route, add_parsed, add_via, after_add,
  is_tracked, remove_route, remove_parsed, after_del, remove_all, cleanup_all_routes,
}

tracked_entry :
    (o : Option String) (interface : String) → is_tracked o interface ≡ true → o ≡ some interface
tracked_entry none interface h = cc
tracked_entry (some i) interface h = let p = (str_eq_iff i interface).0 h in rw p refl

same_entry :
    (dest d interface : String) (m : List (String × String))
    → lookup dest m ≡ some interface
    → lookup d m ≡ (if str_eq dest d then some interface else lookup d m)
same_entry dest d interface m h = elim (Bool-cases (str_eq dest d)) [
  | inl e ↦ let p = (str_eq_iff dest d).0 e in rw e (rw p at h)
  | inr e ↦ rw e refl
]

-- Whether the answer is no failure.
abbrev pub is_settled : Answer → Bool
is_settled changed = true
is_settled no_change = true
is_settled (failed e) = false

module _ (n : Netlink) where
  open n use {Net, Kernel, parse, link_index, route_add, route_del}

  -- The entry of `d` after a call on `destination` that, if it succeeds, leaves `entry` there.
  abbrev Sets : String → Option String → Routing Kernel → Res {0} Unit × Routing Kernel → Type 0
  Sets destination entry st r =
      (d : String)
      → lookup d r.1.routes ≡ (
          if is_ok r.0
          then (if str_eq destination d then entry else lookup d st.routes)
          else lookup d st.routes)

  after_add-Sets :
      (dest interface : String) (a : Answer × Kernel) (st : Routing Kernel)
      → Sets dest (some interface) st (after_add n dest interface a st)
  after_add-Sets dest interface (changed, k) st d = lookup-put dest d interface st.routes
  after_add-Sets dest interface (no_change, k) st d = lookup-put dest d interface st.routes
  after_add-Sets dest interface (failed e, k) st d = refl

  add_via-Sets :
      (dest interface : String) (s : Net) (o : Res (Option ℕ)) (st : Routing Kernel)
      → Sets dest (some interface) st (add_via n dest interface s o st)
  add_via-Sets dest interface s (err e) st d = refl
  add_via-Sets dest interface s (ok none) st d = refl
  add_via-Sets dest interface s (ok (some index)) st d =
      after_add-Sets dest interface (route_add s index st.kernel) st d

  add_parsed-Sets :
      (dest interface : String) (o : Option Net) (st : Routing Kernel)
      → Sets dest (some interface) st (add_parsed n dest interface o st)
  add_parsed-Sets dest interface none st d = refl
  add_parsed-Sets dest interface (some s) st d =
      elim (Bool-cases (is_tracked (lookup dest st.routes) interface)) [
        | inl e ↦ rw e (same_entry dest d interface st.routes (tracked_entry _ interface e))
        | inr e ↦ rw e (add_via-Sets dest interface s (link_index interface st.kernel) st d)
      ]

  -- Adding a route that succeeds tracks it and leaves the other destinations' entries; adding one
  -- that fails leaves the table as it is.
  pub lookup-add_route :
      (dest interface d : String) (st : Routing Kernel)
      → lookup d (add_route n dest interface st).1.routes ≡ (
          if is_ok (add_route n dest interface st).0
          then (if str_eq dest d then some interface else lookup d st.routes)
          else lookup d st.routes)
  unfolding add_route
  lookup-add_route dest interface d st = add_parsed-Sets dest interface (parse dest) st d

  after_del-Sets :
      (dest : String) (a : Answer × Kernel) (st : Routing Kernel)
      → Sets dest none st (after_del n dest a st)
  after_del-Sets dest (changed, k) st d = lookup-drop dest d st.routes
  after_del-Sets dest (no_change, k) st d = lookup-drop dest d st.routes
  after_del-Sets dest (failed e, k) st d = refl

  remove_parsed-Sets :
      (dest : String) (o : Option Net) (st : Routing Kernel)
      → Sets dest none st (remove_parsed n dest o st)
  remove_parsed-Sets dest none st d = refl
  remove_parsed-Sets dest (some s) st d = after_del-Sets dest (route_del s st.kernel) st d

  -- Removing a route that succeeds untracks it and leaves the other destinations' entries;
  -- removing one that fails leaves the table as it is.
  pub lookup-remove_route :
      (dest d : String) (st : Routing Kernel)
      → lookup d (remove_route n dest st).1.routes ≡ (
          if is_ok (remove_route n dest st).0
          then (if str_eq dest d then none else lookup d st.routes)
          else lookup d st.routes)
  unfolding remove_route
  lookup-remove_route dest d st = remove_parsed-Sets dest (parse dest) st d

  add_known :
      (dest interface : String) (s : Net) (st : Routing Kernel)
      → parse dest ≡ some s
      → lookup dest st.routes ≡ some interface
      → add_route n dest interface st ≡ (ok tt, st)
  unfolding add_route
  add_known dest interface s st p h = rw (p, h, str_eq_refl interface) refl

  -- A route that was added is not added again: the second call succeeds, and neither the kernel
  -- nor the table changes.
  add_route_twice :
      (dest interface : String) (s : Net) (st : Routing Kernel)
      → parse dest ≡ some s
      → (add_route n dest interface st).0 ≡ ok tt
      → add_route n dest interface (add_route n dest interface st).1
        ≡ (ok tt, (add_route n dest interface st).1)
  add_route_twice dest interface s st p h =
      add_known dest interface s (add_route n dest interface st).1 p
        (rw (h, str_eq_refl dest) at (lookup-add_route dest interface dest st))

  after_del_ok :
      (dest : String) (a : Answer × Kernel) (st : Routing Kernel)
      → is_settled a.0 ≡ true
      → (after_del n dest a st).0 ≡ ok tt
  after_del_ok dest (changed, k) st h = refl
  after_del_ok dest (no_change, k) st h = refl
  after_del_ok dest (failed e, k) st h = cc

  module _ (settles : (s : Net) (k : Kernel) → is_settled (route_del s k).0 ≡ true) where
    pub remove_parsed_ok :
        (dest : String) (o : Option Net) (st : Routing Kernel)
        → is_some o ≡ true
        → is_ok (remove_parsed n dest o st).0 ≡ true
    remove_parsed_ok dest none st h = cc
    remove_parsed_ok dest (some s) st h =
        rw (after_del_ok dest (route_del s st.kernel) st (settles s st.kernel)) refl

    lookup-remove_all :
        (ds : List String) (d : String) (st : Routing Kernel)
        → All (λ k. is_some (parse k) ≡ true) ds
        → lookup d (remove_all n ds st).routes
          ≡ (if any (λ k. str_eq k d) ds then none else lookup d st.routes)
    unfolding remove_all remove_route
    lookup-remove_all [] d st h = refl
    lookup-remove_all (k ∷ ds) d st h =
        let removed = remove_parsed_ok k (parse k) st h.0 in
        let here = rw removed at (remove_parsed-Sets k (parse k) st d) in
        rw (lookup-remove_all ds d (remove_route n k st).1 h.1, here) (ground arith)

    -- If the kernel refuses no removal but for a route that is not there, and the tracked
    -- destinations are networks, no destination is tracked after the clean-up.
    pub cleanup_all_routes_lem :
        (st : Routing Kernel) (d : String)
        → All (λ k. is_some (parse k) ≡ true) (keys st.routes)
        → lookup d (cleanup_all_routes n st).routes ≡ none
    unfolding cleanup_all_routes
    cleanup_all_routes_lem st d h =
        rw (lookup-remove_all (keys st.routes) d st h)
          (elim (Bool-cases (any (λ k. str_eq k d) (keys st.routes))) [
            | inl e ↦ rw e refl
            | inr e ↦ rw e (lookup-keys d st.routes e)
          ])
