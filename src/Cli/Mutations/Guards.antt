-- ===== src/Cli/Mutations/Guards.antt =====
-- cli/src/main.rs: a change that is not sent, and the idempotency keys of one that is.
use Prim.Native.String.{◌++◌}
use quiltc.Prelude.{
  String, ◌≡◌, refl, ap, Bool, true, false, not, ◌||◌, Option, some, List, [], ◌∷◌, any, keep, inl,
  inr, Bool-cases,
}
use quiltc.Prelude.Text.{join}
use quiltc.Control.Json.{Value}
use quiltc.Cli.Http.{Method, get}
use quiltc.Cli.Console.{Platform, Console, ok, err, ◌>>=◌}
use quiltc.Cli.Console.Contracts.{Goes}
use quiltc.Cli.Client.{Client}
use quiltc.Cli.Capabilities.{
  Matrix, has_capability, missing, capabilities_of, preflight_capabilities,
}
use quiltc.Cli.Mutations.{MutationControlArgs, run_operation_mutation}
use quiltc.Cli.Commands.Changes.{Meets-capabilities}

keep_some :
    {A : Type 0} (q : A → Bool) (xs : List A)
    → any q xs ≡ true
    → (y : A) × (ys : List A) × (keep q xs ≡ y ∷ ys)
keep_some q [] h = elim (lie h) [ ]
  where
    lie : false ≡ true → ⊥
    lie e = cc
keep_some q (x ∷ xs) h = elim (Bool-cases (q x)) [
  | inl e ↦ rw e (_, _, refl)
  | inr e ↦
      let rest : any q xs ≡ true = rw⁻¹ (ap (λ b. b || any q xs) e) h in rw e (keep_some q xs rest)
]

module _ (p : Platform) (c : Client) where
  -- If the cluster lacks a capability that a change requires, then the change is not sent: the
  -- command fails where the check was answered, after at most two calls, which are GETs.
  pub run_operation_mutation_guarded :
      (method : Method) (path : String) (body : Option Value) (o : MutationControlArgs)
      (id first : String) (caps : List String) (m : Matrix) (w v : Console)
      → o.cluster_id ≡ some id
      → o.require_capability ≡ first ∷ caps
      → capabilities_of p c id w ≡ (ok m, v)
      → any (λ x. not (has_capability m x)) (first ∷ caps) ≡ true
      → (run_operation_mutation p c method path body o w ≡ (
        err (
            "UNSUPPORTED_NODE_CAPABILITY: cluster_id="
            ++ id
            ++ " missing_capabilities="
            ++ join "," (missing m (first ∷ caps))),
        v,
      ))
        × Goes (λ x. x.method ≡ get) 2 w v
  unfolding run_operation_mutation preflight_capabilities ◌>>=◌
  run_operation_mutation_guarded method path body o id first caps m w v has_id required asked
        lacks =
      let (y, ys, some_missing) = keep_some (λ x. not (has_capability m x)) (first ∷ caps) lacks in
      (
        rw (has_id, required, asked, some_missing) refl,
        rw (← ap (λ r. r.1) asked) (
            (Meets-capabilities p c (λ x. x.method ≡ get) (λ e. Unit) (λ e. tt)
                (λ path url n u l. refl) id).goes
              w),
      )
