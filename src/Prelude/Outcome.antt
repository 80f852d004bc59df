-- ===== src/Prelude/Outcome.antt =====
-- `anyhow::Result`: a value, or an error by the text that it prints.
use Prim.Native.String.{String}
use mathlib.Core.Bool.{Bool, true, false}

pub data Res {ℓ} (A : Type ℓ) : Type ℓ where
  ok : A → Res A
  err : String → Res A

-- Whether a result is `Ok`.
abbrev pub is_ok {ℓ} : {A : Type ℓ} → Res A → Bool
is_ok (ok a) = true
is_ok (err e) = false
