-- ===== src/Prelude/Maps.antt =====
-- A `HashMap` with texts as keys, as a list of its entries; a key has one entry.
use Prim.Native.String.{String}
use mathlib.Core.Path.{◌≡◌, refl}
use mathlib.Core.Logic.{inl, inr}
use mathlib.Core.Bool.{false}
use mathlib.Core.Option.{Option, none, some}
use mathlib.Core.List.{List, [], ◌∷◌}
use native.Mathlib.Omega.{arith}
use text.Mathlib.Text.{◌==◌ as str_eq}
use text.Mathlib.TextEquality.{eq_iff as str_eq_iff}
use quiltc.Prelude.Lists.{any}
use quiltc.Prelude.Tests.{if◌then◌else◌, Bool-cases}

module _ {ℓ} {V : Type ℓ} where
  abbrev pub lookup : String → List (String × V) → Option V
  lookup k [] = none
  lookup k ((key, v) ∷ m) = if str_eq key k then some v else lookup k m

  -- `insert`
  abbrev pub put : String → V → List (String × V) → List (String × V)
  put k v [] = (k, v) ∷ []
  put k v ((key, old) ∷ m) = if str_eq key k then (k, v) ∷ m else (key, old) ∷ put k v m

  -- `remove`
  abbrev pub drop : String → List (String × V) → List (String × V)
  drop k [] = []
  drop k ((key, v) ∷ m) = if str_eq key k then drop k m else (key, v) ∷ drop k m

  -- `keys`
  abbrev pub keys : List (String × V) → List String
  keys [] = []
  keys ((key, v) ∷ m) = key ∷ keys m

  swap_tests :
      (a b k : String) (x y z : Option V)
      → str_eq a b ≡ false
      → (if str_eq a k then x else (if str_eq b k then y else z))
        ≡ (if str_eq b k then y else (if str_eq a k then x else z))
  swap_tests a b k x y z h = ground (arith, str_eq_iff a k, str_eq_iff b k, str_eq_iff a b)

  pub lookup-put :
      (k k' : String) (v : V) (m : List (String × V))
      → lookup k' (put k v m) ≡ (if str_eq k k' then some v else lookup k' m)
  lookup-put k k' v [] = refl
  lookup-put k k' v ((key, old) ∷ m) = elim (Bool-cases (str_eq key k)) [
    | inl e ↦
        let p = (str_eq_iff key k).0 e in
        rw (e, p) (elim (Bool-cases (str_eq k k')) [ inl s ↦ rw s refl | inr s ↦ rw s refl ])
    | inr e ↦ rw (e, lookup-put k k' v m) (swap_tests key k k' (some old) (some v) (lookup k' m) e)
  ]

  pub lookup-drop :
      (k k' : String) (m : List (String × V))
      → lookup k' (drop k m) ≡ (if str_eq k k' then none else lookup k' m)
  lookup-drop k k' [] = ground arith
  lookup-drop k k' ((key, v) ∷ m) = elim (Bool-cases (str_eq key k)) [
    | inl e ↦ let p = (str_eq_iff key k).0 e in rw (e, p, lookup-drop k k' m) (ground arith)
    | inr e ↦ rw (e, lookup-drop k k' m) (swap_tests key k k' (some v) none (lookup k' m) e)
  ]

  -- A key that is not among the keys has no value.
  pub lookup-keys :
      (k : String) (m : List (String × V))
      → any (λ key. str_eq key k) (keys m) ≡ false
      → lookup k m ≡ none
  lookup-keys k [] h = refl
  lookup-keys k ((key, v) ∷ m) h = ground (arith, lookup-keys k m)
