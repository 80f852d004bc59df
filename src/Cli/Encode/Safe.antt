-- ===== src/Cli/Encode/Safe.antt =====
-- cli/src/main.rs, encode_query: what can stand in an encoded text.
use Prim.Native.Char.{code}
use Prim.Native.String.{◌++◌}
use quiltc.Prelude.{
  ℕ, ◌/◌, ◌%◌, String, ◌≡◌, refl, Bool, true, false, ◌||◌, List, [], ◌∷◌, arith, ◌==◌, ==_iff, inl,
  inr, Bool-cases, if◌then◌else◌,
}
use quiltc.Prelude.Text.{has_char}
use quiltc.Prelude.Text.Laws.{has_char-append}
use quiltc.Cli.Encode.{hex_digit, escape, escapes, utf8, is_alphanumeric, encode_query}

module _ (k : ℕ) (other : is_alphanumeric k ≡ false) (no_percent : (k == 37) ≡ false) where
  abbrev IsFree : String → Type 0
  IsFree s = has_char k s ≡ false

  IsFree-if : (b : Bool) (s t : String) → IsFree s → IsFree t → IsFree (if b then s else t)
  IsFree-if true s t h g = h
  IsFree-if false s t h g = g

  IsFree-append : (s t : String) → IsFree s → IsFree t → IsFree (s ++ t)
  IsFree-append s t h g = rw (has_char-append k s t, h, g) refl

  IsFree-hex_digit : (n : ℕ) → IsFree (hex_digit n)
  IsFree-hex_digit n = IsFree-if (n == 0) _ _ (ground arith) (
      IsFree-if (n == 1) _ _ (ground arith) (
        IsFree-if (n == 2) _ _ (ground arith) (
          IsFree-if (n == 3) _ _ (ground arith) (
            IsFree-if (n == 4) _ _ (ground arith) (
              IsFree-if (n == 5) _ _ (ground arith) (
                IsFree-if (n == 6) _ _ (ground arith) (
                  IsFree-if (n == 7) _ _ (ground arith) (
                    IsFree-if (n == 8) _ _ (ground arith) (
                      IsFree-if (n == 9) _ _ (ground arith) (
                        IsFree-if (n == 10) _ _ (ground arith) (
                          IsFree-if (n == 11) _ _ (ground arith) (
                            IsFree-if (n == 12) _ _ (ground arith) (
                              IsFree-if (n == 13) _ _ (ground arith)
                                (IsFree-if (n == 14) _ _ (ground arith) (ground arith)))))))))))))))

  IsFree-escapes : (bs : List ℕ) → IsFree (escapes bs)
  IsFree-escapes [] = refl
  IsFree-escapes (b ∷ bs) =
      IsFree-append (escape b) (escapes bs)
        (IsFree-append "%" _ (ground arith) (
          IsFree-append (hex_digit (b / 16)) (hex_digit (b % 16)) (IsFree-hex_digit (b / 16))
            (IsFree-hex_digit (b % 16))))
        (IsFree-escapes bs)

  -- An encoded text holds no character but letters, digits and the percent sign.
  pub encode_query_lem : (s : String) → has_char k (encode_query s) ≡ false
  unfolding encode_query
  encode_query_lem String.[] = refl
  encode_query_lem (String.◌∷◌ c s) = elim (Bool-cases (is_alphanumeric (code c))) [
    | inl e ↦ rw e (with_letter e (encode_query_lem s))
    | inr e ↦ rw e (IsFree-append _ _ (IsFree-escapes (utf8 (code c))) (encode_query_lem s))
  ]
    where
      with_letter :
          is_alphanumeric (code c) ≡ true
          → IsFree (encode_query s)
          → (code c == k || has_char k (encode_query s)) ≡ false
      with_letter e h = elim (Bool-cases (code c == k)) [
        | inl q ↦
            let same = (==_iff (code c) k).0 q in
            let never : is_alphanumeric (code c) ≡ false = rw same other in cc
        | inr q ↦ rw (q, h) refl
      ]
