-- ===== src/Cli/Commands/Safety.antt =====
-- cli/src/main.rs: calls that a command must not make.
use quiltc.Prelude.{String, ◌≡◌, ◌≢◌, refl, sym, ◌∙◌, true, none, some, List, ◌∷◌}
use quiltc.Cli.Console.{Platform, ServiceCall}
use quiltc.Cli.Console.Contracts.{Meets, Meets-bind}
use quiltc.Cli.Config.{Config}
use quiltc.Cli.Client.{Client, Headers}
use quiltc.Cli.Nodes.{AgentCmd, run_agent}
use quiltc.Cli.Kubernetes.Commands.{ApplyArgs, apply}
use quiltc.Cli.Kubernetes.{run_k8s}
use quiltc.Cli.Commands.Nodes.{AgentHeaders, Meets-run_agent}
use quiltc.Cli.Commands.Kubernetes.{Exits}
use quiltc.Cli.Commands.Exits.{apply_codes, Meets-dry_run, Meets-manifest_of}

-- A call with the user agent and the headers of a node's command, and no others
abbrev pub AsNode : Platform → Client → Config → AgentCmd → ServiceCall → Type 0
AsNode p c cfg cmd x =
    (hs : Headers) × AgentHeaders p c cfg cmd hs × (x.headers ≡ ("user-agent", c.user_agent) ∷ hs)

-- With a client that has no tenant's credentials, a command of a node ends after at most one
-- call. Its headers are the user agent and the token that is stored for that node; for a
-- registration, the user agent and the join token that was given.
pub run_agent_lem :
    (p : Platform) (c : Client) (cfg : Config) (cfg_path : String) (cmd : AgentCmd)
    → c.tenant_auth ≡ none
    → Meets (AsNode p c cfg cmd) (λ e. Unit) 1 (λ d. Unit) (run_agent p c cfg cfg_path cmd)
run_agent_lem p c cfg cfg_path cmd no_auth =
    Meets-run_agent p c cfg cfg_path (AsNode p c cfg cmd) _ (λ e. tt) cmd
      (λ method path headers body h url n u l. (headers, h, rw no_auth refl))

-- A call of another address than that of an apply
abbrev pub IsHarmless : Platform → Client → ServiceCall → Type 0
IsHarmless p c x = p.join_url c.base_url "/api/k8s/apply" ≢ some x.url

-- If the addresses of a validation and of a difference are not that of an apply, a dry run of an
-- apply ends after at most two calls, none of them an apply, and fails only with exit codes 1 to
-- 4.
pub dry_run_lem :
    (p : Platform) (c : Client) (sources : List String) (a : ApplyArgs)
    → a.dry_run ≡ true
    → p.join_url c.base_url "/api/k8s/apply" ≢ p.join_url c.base_url "/api/k8s/validate"
    → p.join_url c.base_url "/api/k8s/apply" ≢ p.join_url c.base_url "/api/k8s/diff"
    → Meets (IsHarmless p c) (Exits apply_codes) 2 (λ t. Unit) (run_k8s p c (apply sources a))
unfolding run_k8s
dry_run_lem p c sources a dry not_validate not_diff =
    Meets-bind (IsHarmless p c) _ _ _ 0 2 _ _
      (Meets-manifest_of p c (IsHarmless p c) apply_codes sources refl)
      (λ m t.
        Meets-dry_run p c (IsHarmless p c) apply_codes m a refl refl dry
          (λ body url n u l e. not_validate (e ∙ sym u)) (λ body url n u l e. not_diff (e ∙ sym u)))
