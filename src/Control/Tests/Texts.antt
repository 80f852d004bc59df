-- ===== src/Control/Tests/Texts.antt =====
-- control/src/services/orchestrator.rs: the theorems on texts and bounds at concrete data.
use Prim.Native.String.{◌++◌}
use quiltc.Prelude.{String, ◌≡◌, refl, true, some, arith}
use quiltc.Prelude.Int.{pos, ◌≤ℤ◌}
use quiltc.Prelude.Text.{bar}
use quiltc.Control.Json.{null, lookup, insert, str_lt, canonical_json}
use quiltc.Control.Actions.Key.{key_input_inj}
use quiltc.Control.Codes.{normalize_reason_code}
use quiltc.Control.Remote.{parse_runtime_response}
use quiltc.Control.Remote.Errors.{learned, learned_client_error}
use quiltc.Control.Decide.{base_desired}
use quiltc.Control.Decide.Bounds.{base_desired_wraps}
use quiltc.Control.Tests.Data.{toy, policy_row, observation}

abbrev t₁ : String
t₁ = "t"

abbrev w₁ : String
w₁ = "w"

abbrev pool_type : String
pool_type = "SetPoolTarget"

key_input_inj_example :
    (t₁ ≡ t₁)
    × (w₁ ≡ w₁)
    × (pool_type ≡ pool_type)
    × (toy.to_text (canonical_json null) ++ bar (toy.show_nat 3)
        ≡ toy.to_text (canonical_json null) ++ bar (toy.show_nat 3))
key_input_inj_example =
    key_input_inj toy t₁ w₁ pool_type t₁ w₁ pool_type null null 3 3 refl refl refl refl refl refl
      refl

learned_client_error_example :
    learned (parse_runtime_response toy 429 "busy")
    ≡ some (record { code = "RESOURCE_PRESSURE"; retryable = some true; detail = "no memory" })
unfolding lookup insert str_lt normalize_reason_code
learned_client_error_example =
    learned_client_error toy 429 "busy" (omega arith) (omega arith) refl refl

base_desired_wraps_example :
    base_desired toy (record policy_row { hard_quota = 4294967295; soft_burst = 4 }) observation
    ≤ℤ pos 3
base_desired_wraps_example =
    base_desired_wraps toy (record policy_row { hard_quota = 4294967295; soft_burst = 4 })
      observation 3 (omega arith) refl
