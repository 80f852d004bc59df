-- ===== src/Runtime/Ipam/Pool.antt =====
-- runtime/src/ipam.rs: what is promised of the pool of addresses.
use Prim.Native.String.{◌++◌ as ◌++ˢ◌}
use quiltc.Prelude.{
  ℕ, String, ◌≡◌, refl, ap, ◌∙◌, Bool, true, false, not, ◌||◌, ◌&&◌, Option, none, some, List, [],
  ◌∷◌, ◌++◌, Res, ok, err, ◌==◌, find, All, arith, Bool-cases, inl, inr, ==_iff,
}
use quiltc.Prelude.Sets.{member, insert, remove, member-insert, member-remove, same_refl}
use quiltc.Runtime.Ipam.{
  Ipnet, IpamState, Call, configure, allocate, release, call, allocate_ip, allocate_from,
  release_ip, configure_subnet, given, allocate_in, cluster_cidr,
}

abbrev pub eq : ℕ → ℕ → Bool
eq a b = a == b

abbrev pub has : ℕ → List ℕ → Bool
has = member eq

-- Whether a call neither releases the address nor configures the manager anew.
abbrev pub leaves : ℕ → Call → Bool
leaves h (configure s) = false
leaves h allocate = true
leaves h (release a) = not (h == a)

has-insert : (a b : ℕ) (xs : List ℕ) → has b (insert eq a xs) ≡ (eq b a || has b xs)
has-insert = member-insert eq ==_iff

has-remove : (a b : ℕ) (xs : List ℕ) → has b (remove eq a xs) ≡ (not (eq b a) && has b xs)
has-remove = member-remove eq ==_iff

eq_of : (a b : ℕ) → eq a b ≡ true → a ≡ b
eq_of a b h = (==_iff a b).0 h

has-append : (h : ℕ) (xs ys : List ℕ) → has h xs ≡ false → has h (xs ++ ys) ≡ has h ys
has-append h [] ys e = refl
has-append h (x ∷ xs) ys e = ground (arith, has-append h xs ys)

ok_injective : (a b : ℕ) → ok a ≡ ok b → a ≡ b
ok_injective a b e = cc

apart : (h a : ℕ) (xs : List ℕ) → has h xs ≡ true → has a xs ≡ false → eq h a ≡ false
apart h a xs e k = elim (Bool-cases (eq h a)) [
  | inl s ↦ let p = ap (λ b. has b xs) (eq_of h a s) in cc
  | inr d ↦ d
]

find_passes : (p : ℕ → Bool) (xs : List ℕ) (h : ℕ) → find p xs ≡ some h → p h ≡ true
find_passes p [] h e = cc
find_passes p (x ∷ xs) h e = elim (Bool-cases (p x)) [
  | inl k ↦ let same : some x ≡ some h = rw k at e in let q : x ≡ h = cc in rw (← q) k
  | inr k ↦ find_passes p xs h (rw k at e)
]

find-cong : (p q : ℕ → Bool) (xs : List ℕ) → ((a : ℕ) → p a ≡ q a) → find p xs ≡ find q xs
find-cong p q [] h = refl
find-cong p q (x ∷ xs) h = rw (h x, find-cong p q xs h) refl

-- Taking a free address and giving it back changes nothing that is asked of the set.
is_free_again :
    (a h : ℕ) (taken : List ℕ)
    → not (has h taken) ≡ true
    → not (has a (remove eq h (insert eq h taken))) ≡ not (has a taken)
is_free_again a h taken f = elim (Bool-cases (eq a h)) [
  | inl s ↦ let p = eq_of a h s in rw (has-remove h a (insert eq h taken), s) (rw p (ground arith))
  | inr d ↦ rw (has-remove h a (insert eq h taken), has-insert h a taken, d) refl
]

module _ (n : Ipnet) where
  open n use {Net, parse, show, prefix_len, network, contains, hosts, show_len}

  -- The addresses that a sequence of calls gives, and the state after it.
  unfoldable pub run : List Call → IpamState Net → List ℕ × IpamState Net
  run [] st = ([], st)
  run (c ∷ cs) st = let rest = run cs (call n c st).1 in ((call n c st).0 ++ rest.0, rest.1)

  abbrev pub chosen : Net → Option ℕ → IpamState Net → Res ℕ × IpamState Net
  chosen s none st = (err ("No available IPs in subnet " ++ˢ show s), st)
  chosen s (some h) st = (ok h, record st { allocated = insert eq h st.allocated })

  -- The first host that is not taken is taken; without one, the state stays.
  allocate_from_lem :
      (s : Net) (hs : List ℕ) (st : IpamState Net)
      → allocate_from n s hs st ≡ chosen s (find (λ a. not (has a st.allocated)) hs) st
  unfolding allocate_from
  allocate_from_lem s [] st = refl
  allocate_from_lem s (h ∷ hs) st = elim (Bool-cases (has h st.allocated)) [
    | inl e ↦ rw e (allocate_from_lem s hs st)
    | inr e ↦ rw (e, e) refl
  ]

  -- What holds of an address that is taken, after an allocation.
  abbrev Kept : ℕ → Res ℕ × IpamState Net → Type 0
  Kept h r = (has h (given r.0) ≡ false) × (has h r.1.allocated ≡ true)

  allocate_from-Kept :
      (s : Net) (hs : List ℕ) (st : IpamState Net) (h : ℕ)
      → has h st.allocated ≡ true
      → Kept h (allocate_from n s hs st)
  unfolding allocate_from
  allocate_from-Kept s [] st h e = (refl, e)
  allocate_from-Kept s (a ∷ hs) st h e = elim (Bool-cases (has a st.allocated)) [
    | inl k ↦ rw k (allocate_from-Kept s hs st h e)
    | inr k ↦ let d = apart h a st.allocated e k in rw (k, d, e) (refl, refl)
  ]

  allocate_in-Kept :
      (h : ℕ) (s : Option Net) (st : IpamState Net)
      → has h st.allocated ≡ true
      → Kept h (allocate_in n s st)
  allocate_in-Kept h none st e = (refl, e)
  allocate_in-Kept h (some s) st e = allocate_from-Kept s (hosts s) st h e

  call-Kept :
      (h : ℕ) (c : Call) (st : IpamState Net)
      → leaves h c ≡ true
      → has h st.allocated ≡ true
      → (has h (call n c st).0 ≡ false) × (has h (call n c st).1.allocated ≡ true)
  unfolding call allocate_ip
  call-Kept h (configure s) st l e = cc
  call-Kept h allocate st l e = allocate_in-Kept h st.subnet st e
  call-Kept h (release a) st l e = (refl, rw (has-remove a h st.allocated, e) (ground arith))

  run-Kept :
      (h : ℕ) (cs : List Call) (st : IpamState Net)
      → All (λ c. leaves h c ≡ true) cs
      → has h st.allocated ≡ true
      → has h (run cs st).0 ≡ false
  unfolding run
  run-Kept h [] st l e = refl
  run-Kept h (c ∷ cs) st l e =
      let kept = call-Kept h c st l.0 e in
      has-append h (call n c st).0 (run cs (call n c st).1).0 kept.0
      ∙ run-Kept h cs (call n c st).1 l.1 kept.1

  allocate_from_taken :
      (s : Net) (hs : List ℕ) (st : IpamState Net) (h : ℕ)
      → (allocate_from n s hs st).0 ≡ ok h
      → has h (allocate_from n s hs st).1.allocated ≡ true
  unfolding allocate_from
  allocate_from_taken s [] st h e = cc
  allocate_from_taken s (a ∷ hs) st h e = elim (Bool-cases (has a st.allocated)) [
    | inl k ↦ rw k (allocate_from_taken s hs st h (rw k at e))
    | inr k ↦ let p = ok_injective a h (rw k at e) in rw k (rw (← p, same_refl eq ==_iff a) refl)
  ]

  allocate_in_taken :
      (s : Option Net) (st : IpamState Net) (h : ℕ)
      → (allocate_in n s st).0 ≡ ok h
      → has h (allocate_in n s st).1.allocated ≡ true
  allocate_in_taken none st h e = cc
  allocate_in_taken (some s) st h e = allocate_from_taken s (hosts s) st h e

  -- An address that was given is not given again by any calls that neither release it nor
  -- configure the manager.
  pub given_once :
      (st : IpamState Net) (h : ℕ) (cs : List Call)
      → (allocate_ip n st).0 ≡ ok h
      → All (λ c. leaves h c ≡ true) cs
      → has h (run cs (allocate_ip n st).1).0 ≡ false
  unfolding allocate_ip
  given_once st h cs e l = run-Kept h cs (allocate_ip n st).1 l (allocate_in_taken st.subnet st h e)

  -- The manager's state with a subnet configured.
  abbrev pub pool : Net → List ℕ → IpamState Net
  pool s taken = record { subnet = some s; allocated = taken }

  abbrev pub is_free : List ℕ → ℕ → Bool
  is_free taken a = not (has a taken)

  -- With a subnet configured, the first host of the subnet that is not taken is given and taken;
  -- if all are taken, the call fails and changes nothing.
  pub allocate_ip_lem :
      (s : Net) (taken : List ℕ)
      → allocate_ip n (pool s taken) ≡ chosen s (find (is_free taken) (hosts s)) (pool s taken)
  unfolding allocate_ip
  allocate_ip_lem s taken = allocate_from_lem s (hosts s) (pool s taken)

  given_host :
      (s : Net) (taken : List ℕ) (h : ℕ) (o : Option ℕ)
      → (chosen s o (pool s taken)).0 ≡ ok h
      → o ≡ some h
  given_host s taken h none e = cc
  given_host s taken h (some a) e = ap some (ok_injective a h e)

  -- An address that was given and is released is the next one that is given.
  release_ip-allocate_ip :
      (s : Net) (taken : List ℕ) (h : ℕ)
      → (allocate_ip n (pool s taken)).0 ≡ ok h
      → (allocate_ip n (release_ip n h (allocate_ip n (pool s taken)).1).1).0 ≡ ok h
  unfolding release_ip
  release_ip-allocate_ip s taken h e =
      let host = given_host s taken h _ (rw (allocate_ip_lem s taken) at e) in
      let free = find_passes (is_free taken) (hosts s) h host in
      let again =
        find-cong (is_free (remove eq h (insert eq h taken))) (is_free taken) (hosts s)
          (λ a. is_free_again a h taken free)
        ∙ host in
      rw (allocate_ip_lem s taken, host)
        (rw (allocate_ip_lem s (remove eq h (insert eq h taken)), again) refl)

  -- Configuring a /24 network within the cluster's frees every address, also if it was the
  -- configured one: the next allocation gives the network's first host, whatever was taken before.
  pub configure_subnet_frees :
      (text : String) (s cluster : Net) (h : ℕ) (hs : List ℕ) (st : IpamState Net)
      → parse text ≡ some s
      → prefix_len s ≡ 24
      → parse cluster_cidr ≡ some cluster
      → contains cluster (network s) ≡ true
      → hosts s ≡ h ∷ hs
      → (allocate_ip n (configure_subnet n text st).1).0 ≡ ok h
  unfolding allocate_ip configure_subnet allocate_from
  configure_subnet_frees text s cluster h hs st p l c i first = rw (p, l, c, i, first) refl
