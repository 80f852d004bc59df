-- ===== src/Runtime/Ipam/Hosts.antt =====
-- runtime/src/ipam.rs: the addresses that are taken are hosts of the subnet.
use quiltc.Prelude.{
  ℕ, ◌≡◌, refl, true, Option, none, some, List, [], ◌∷◌, All, All-keep, Bool-cases, inl, inr, ◌==◌,
  ==_iff, arith,
}
use quiltc.Prelude.Sets.{remove, same_refl}
use quiltc.Runtime.Ipam.{
  Ipnet, IpamState, Call, configure, allocate, release, call, allocate_ip, allocate_from,
  allocate_in, release_ip, configure_subnet, check_subnet, check_cluster, new_ipam, cluster_cidr,
}
use quiltc.Runtime.Ipam.Pool.{eq, has, run}

All-weaken : (P Q : ℕ → Type 0) (xs : List ℕ) → ((a : ℕ) → P a → Q a) → All P xs → All Q xs
All-weaken P Q [] f h = tt
All-weaken P Q (x ∷ xs) f h = (f x h.0, All-weaken P Q xs f h.1)

has_later : (a x : ℕ) (xs : List ℕ) → has a xs ≡ true → has a (x ∷ xs) ≡ true
has_later a x xs h = ground arith

All-has : (xs : List ℕ) → All (λ a. has a xs ≡ true) xs
All-has [] = tt
All-has (x ∷ xs) =
    (rw (same_refl eq ==_iff x) refl, All-weaken _ _ xs (λ a h. has_later a x xs h) (All-has xs))

module _ (n : Ipnet) where
  open n use {Net, parse, show, prefix_len, network, contains, hosts, show_len}

  abbrev AreHosts : Option Net → List ℕ → Type 0
  AreHosts none taken = taken ≡ []
  AreHosts (some s) taken = All (λ a. has a (hosts s) ≡ true) taken

  -- Without a subnet nothing is taken, and with one, what is taken are hosts of it.
  abbrev pub IsPool : IpamState Net → Type 0
  IsPool st = AreHosts st.subnet st.allocated

  check_cluster-IsPool :
      (s : Net) (c : Option Net) (st : IpamState Net)
      → IsPool st
      → IsPool (check_cluster n s c st).1
  check_cluster-IsPool s none st h = h
  check_cluster-IsPool s (some c) st h = elim (Bool-cases (contains c (network s))) [
    | inl e ↦ rw e tt
    | inr e ↦ rw e h
  ]

  check_subnet-IsPool :
      (o : Option Net) (st : IpamState Net) → IsPool st → IsPool (check_subnet n o st).1
  check_subnet-IsPool none st h = h
  check_subnet-IsPool (some s) st h = elim (Bool-cases (prefix_len s == 24)) [
    | inl e ↦ rw e (check_cluster-IsPool s (parse cluster_cidr) st h)
    | inr e ↦ rw e h
  ]

  allocate_from-AreHosts :
      (s : Net) (hs : List ℕ) (o : Option Net) (taken : List ℕ)
      → All (λ a. has a (hosts s) ≡ true) hs
      → All (λ a. has a (hosts s) ≡ true) taken
      → All
          (λ a. has a (hosts s) ≡ true)
          (allocate_from n s hs (record { subnet = o; allocated = taken })).1.allocated
  unfolding allocate_from
  allocate_from-AreHosts s [] o taken k h = h
  allocate_from-AreHosts s (a ∷ hs) o taken k h = elim (Bool-cases (has a taken)) [
    | inl e ↦ rw e (allocate_from-AreHosts s hs o taken k.1 h)
    | inr e ↦ rw e (k.0, h)
  ]

  allocate_from_subnet :
      (s : Net) (hs : List ℕ) (st : IpamState Net) → (allocate_from n s hs st).1.subnet ≡ st.subnet
  unfolding allocate_from
  allocate_from_subnet s [] st = refl
  allocate_from_subnet s (a ∷ hs) st = elim (Bool-cases (has a st.allocated)) [
    | inl e ↦ rw e (allocate_from_subnet s hs st)
    | inr e ↦ rw e refl
  ]

  allocate_in-IsPool :
      (o : Option Net) (taken : List ℕ)
      → AreHosts o taken
      → IsPool (allocate_in n o (record { subnet = o; allocated = taken })).1
  allocate_in-IsPool none taken h = h
  allocate_in-IsPool (some s) taken h =
      rw (allocate_from_subnet s (hosts s) (record { subnet = some s; allocated = taken }))
        (allocate_from-AreHosts s (hosts s) (some s) taken (All-has (hosts s)) h)

  release-AreHosts :
      (o : Option Net) (taken : List ℕ) (a : ℕ) → AreHosts o taken → AreHosts o (remove eq a taken)
  release-AreHosts none taken a h = rw h refl
  release-AreHosts (some s) taken a h = All-keep _ _ taken (All-weaken _ _ taken (λ b k _. k) h)

  call-IsPool : (c : Call) (st : IpamState Net) → IsPool st → IsPool (call n c st).1
  unfolding call configure_subnet allocate_ip release_ip
  call-IsPool (configure text) st h = check_subnet-IsPool (parse text) st h
  call-IsPool allocate st h = allocate_in-IsPool st.subnet st.allocated h
  call-IsPool (release a) st h = release-AreHosts st.subnet st.allocated a h

  run_from-IsPool : (cs : List Call) (st : IpamState Net) → IsPool st → IsPool (run n cs st).1
  unfolding run
  run_from-IsPool [] st h = h
  run_from-IsPool (c ∷ cs) st h = run_from-IsPool cs (call n c st).1 (call-IsPool c st h)

  -- Whatever calls a new manager serves, what it has taken are hosts of the configured subnet.
  pub run-IsPool : (cs : List Call) → IsPool (run n cs (new_ipam n)).1
  unfolding new_ipam
  run-IsPool cs = run_from-IsPool cs (new_ipam n) refl
