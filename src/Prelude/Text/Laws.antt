-- ===== src/Prelude/Text/Laws.antt =====
-- Splitting, stripping and searching a text that was put together with `++`.
use Prim.Native.Char.{code}
use Prim.Native.String.{◌++◌}
use text.Mathlib.TextLemmas.{cons-append, nil-append, append_assoc}
use quiltc.Prelude.{
  ℕ, String, ◌≡◌, refl, sym, ◌∙◌, ap, Bool, false, ◌||◌, some, arith, ◌==◌, ==_iff,
}
use quiltc.Prelude.Text.{whole, parts, split_once, bar, strip_prefix, has_char}

pub or_false : (a b : Bool) → (a || b) ≡ false → (a ≡ false) × (b ≡ false)
or_false a b h = ground arith

-- A text without the separator, the separator, and a rest are split there.
pub split_once-bar :
    (s r : String) → has_char b'|' s ≡ false → split_once b'|' (s ++ bar r) ≡ parts s r
unfolding split_once
split_once-bar String.[] r h = rw nil-append refl
split_once-bar (String.◌∷◌ c s) r h =
    let (other, rest) = or_false (code c == b'|') (has_char b'|' s) h in
    rw (cons-append, other, split_once-bar s r rest)

pub split_once-none : (s : String) → has_char b'|' s ≡ false → split_once b'|' s ≡ whole
unfolding split_once
split_once-none String.[] h = refl
split_once-none (String.◌∷◌ c s) h =
    let (other, rest) = or_false (code c == b'|') (has_char b'|' s) h in
    rw (other, split_once-none s rest)

parts_inj : (a b c d : String) → parts a b ≡ parts c d → (a ≡ c) × (b ≡ d)
parts_inj a b c d h = (cc, cc)

-- The first separator decides where a text is cut.
pub bar_cancel :
    (s t r u : String)
    → has_char b'|' s ≡ false
    → has_char b'|' t ≡ false
    → s ++ bar r ≡ t ++ bar u
    → (s ≡ t) × (r ≡ u)
bar_cancel s t r u hs ht e =
    parts_inj s r t u (sym (split_once-bar s r hs) ∙ ap (split_once b'|') e ∙ split_once-bar t u ht)

-- Moving a separator between two texts that are put together with one changes nothing.
pub bar_assoc : (s t r : String) → (s ++ bar t) ++ r ≡ s ++ bar (t ++ r)
bar_assoc s t r = rw (append_assoc, cons-append)

pub has_char-append : (k : ℕ) (s t : String) → has_char k (s ++ t) ≡ (has_char k s || has_char k t)
has_char-append k String.[] t = rw nil-append
has_char-append k (String.◌∷◌ c s) t = rw (cons-append, has_char-append k s t) (ground arith)

-- A prefix in front of a text is taken off.
pub strip_prefix-append : (p s : String) → strip_prefix p (p ++ s) ≡ some s
unfolding strip_prefix
strip_prefix-append String.[] s = rw nil-append
strip_prefix-append (String.◌∷◌ c p) s =
    rw (cons-append, (==_iff (code c) (code c)).1 refl, strip_prefix-append p s)
