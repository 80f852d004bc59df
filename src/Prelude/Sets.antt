-- ===== src/Prelude/Sets.antt =====
-- A `HashSet` as a list of its elements, for an equality test.
use mathlib.Core.Path.{◌≡◌, refl}
use mathlib.Core.Logic.{◌↔◌, inl, inr}
use mathlib.Core.Bool.{Bool, true, false, not, ◌&&◌, ◌||◌}
use mathlib.Core.List.{List, [], ◌∷◌}
use native.Mathlib.Omega.{arith}
use quiltc.Prelude.Tests.{if◌then◌else◌, Bool-cases}
use quiltc.Prelude.Lists.{any, keep}

module _ {ℓ} {A : Type ℓ} (same : A → A → Bool) where
  abbrev pub member : A → List A → Bool
  member a xs = any (λ b. same a b) xs

  abbrev pub insert : A → List A → List A
  insert a xs = if member a xs then xs else a ∷ xs

  abbrev pub remove : A → List A → List A
  remove a xs = keep (λ b. not (same a b)) xs

module _ {ℓ} {A : Type ℓ} (same : A → A → Bool)
    (same_iff : (a b : A) → (same a b ≡ true) ↔ (a ≡ b)) where
  same_as : (a b x : A) → same a x ≡ true → same b x ≡ same b a
  same_as a b x e = let p = (same_iff a x).0 e in rw p refl

  pub same_refl : (a : A) → same a a ≡ true
  same_refl a = (same_iff a a).1 refl

  pub member-insert :
      (a b : A) (xs : List A) → member same b (insert same a xs) ≡ (same b a || member same b xs)
  member-insert a b xs = elim (Bool-cases (member same a xs)) [
    | inl e ↦ elim (Bool-cases (same b a)) [
      | inl s ↦ let p = (same_iff b a).0 s in rw (e, p, same_refl a) e
      | inr s ↦ rw (e, s) refl
    ]
    | inr e ↦ rw e refl
  ]

  pub member-remove :
      (a b : A) (xs : List A)
      → member same b (remove same a xs) ≡ (not (same b a) && member same b xs)
  member-remove a b [] = ground arith
  member-remove a b (x ∷ xs) = elim (Bool-cases (same a x)) [
    | inl e ↦ rw (e, member-remove a b xs, same_as a b x e) (ground arith)
    | inr e ↦ elim (Bool-cases (same b a)) [
      | inl s ↦
          let p = (same_iff b a).0 s in
          let q : same b x ≡ false = rw p e in rw (e, q, member-remove a b xs, s) refl
      | inr s ↦ rw (e, member-remove a b xs, s) refl
    ]
  ]

  pub member-keep :
      (p : A → Bool) (b : A) (xs : List A) → member same b (keep p xs) ≡ (p b && member same b xs)
  member-keep p b [] = ground arith
  member-keep p b (x ∷ xs) = elim (Bool-cases (p x)) [
    | inl e ↦ elim (Bool-cases (same b x)) [
      | inl s ↦ let q = (same_iff b x).0 s in let here : p b ≡ true = rw q e in rw (e, s, here) refl
      | inr s ↦ rw (e, s, member-keep p b xs) refl
    ]
    | inr e ↦ elim (Bool-cases (same b x)) [
      | inl s ↦
          let q = (same_iff b x).0 s in
          let here : p b ≡ false = rw q e in rw (e, s, member-keep p b xs, here) refl
      | inr s ↦ rw (e, s, member-keep p b xs) refl
    ]
  ]
