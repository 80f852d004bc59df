-- ===== src/Cli/Commands/Sent.antt =====
-- cli/src/main.rs, main: whose credentials a call carries, and where it goes.
use Prim.Native.String.{◌++◌ as ◌^◌}
use quiltc.Prelude.{suc, ◌≤◌, ◌++◌, String, ◌≡◌, refl, Option, none, some, ◌∷◌}
use quiltc.Prelude.Maps.{lookup}
use quiltc.Control.Json.{Value}
use quiltc.Cli.Http.{Method}
use quiltc.Cli.Console.{Platform, Bytes, ServiceCall, Console}
use quiltc.Cli.Config.{Config, no_config}
use quiltc.Cli.Client.{Client, Headers, TenantAuth, auth_headers}
use quiltc.Cli.Args.{value_or}
use quiltc.Cli.Client.Calls.{Covers, IsOwn}
use quiltc.Cli.Main.{
  Args, Command, agent, request, tenant_auth_of, or_this, with_auth, with_base_url, config_path,
}
use quiltc.Cli.Commands.Others.{Written}
use quiltc.Cli.Commands.Nodes.{NodeHeaders, AgentHeaders}
use quiltc.Cli.Nodes.{AgentCmd, register, heartbeat, allocation, placements, report, deregister}

-- The configuration that is in the file
abbrev pub stored_in : Platform → Option Bytes → Config
stored_in p none = no_config
stored_in p (some b) = value_or no_config (p.config_from_bytes b)

abbrev pub stored_config : Platform → Args → Console → Config
stored_config p a w = stored_in p (lookup (config_path p a) w.files)

-- The credentials of a command's calls: none for a node's, else the tenant's.
abbrev pub credentials_of : Command → Option TenantAuth → Option TenantAuth
credentials_of (agent cmd) tenant = none
credentials_of cmd tenant = tenant

-- What a command adds to the headers: the node's token, what the user wrote, or its own.
abbrev pub Adds : Platform → Client → Config → Command → Headers → Type 0
Adds p c cfg (agent cmd) = AgentHeaders p c cfg cmd
Adds p c cfg (request r) = Written p r
Adds p c cfg cmd = IsOwn

-- The client for the arguments, a base address and credentials
abbrev pub made_for : Platform → Args → String → Option TenantAuth → Client
made_for p a base tenant = record {
  base_url = base;
  tenant_auth = tenant;
  user_agent = "quiltc/" ^ p.version;
  retries = a.retries;
}

-- A call for a command, with the arguments and a configuration: to the base address of the
-- arguments, joined with a path, with the user agent, the credentials of the command and what it
-- adds as headers, and tried no more often than the arguments allow.
abbrev pub SentFor : Platform → Args → Config → Command → ServiceCall → Type 0
SentFor p a cfg cmd x =
    (base : String) × (path : String) × (hs : Headers) × (p.parse_url a.base_url ≡ some base)
    × (p.join_url base path ≡ some x.url)
    × (x.headers
        ≡ ("user-agent", "quiltc/" ^ p.version)
          ∷ (auth_headers (credentials_of cmd (tenant_auth_of a cfg)) ++ hs))
    × Adds p (made_for p a base none) cfg cmd hs
    × (x.attempts ≤ suc a.retries)

-- A client that was made for the arguments
abbrev pub IsFor : Platform → Args → Option TenantAuth → Client → Type 0
IsFor p a tenant c =
    (p.parse_url a.base_url ≡ some c.base_url)
    × (c.tenant_auth ≡ tenant)
    × (c.user_agent ≡ "quiltc/" ^ p.version)
    × (c.retries ≡ a.retries)

-- A configuration with the credentials and the tokens of another, under the arguments
abbrev pub Agrees : Args → Config → Config → Type 0
Agrees a st cfg = (tenant_auth_of a cfg ≡ tenant_auth_of a st) × (cfg.node_tokens ≡ st.node_tokens)

or_this_twice : {A : Type 0} (o stored : Option A) → or_this o (or_this o stored) ≡ or_this o stored
or_this_twice none stored = refl
or_this_twice (some a) stored = refl

pub with_auth-Agrees : (a : Args) (st : Config) → Agrees a st (with_auth a st)
unfolding tenant_auth_of
with_auth-Agrees a st =
    (rw (or_this_twice a.jwt st.tenant_jwt, or_this_twice a.api_key st.tenant_api_key) refl, refl)

pub with_base_url-Agrees : (a : Args) (st : Config) → Agrees a st (with_base_url a st)
unfolding tenant_auth_of
with_base_url-Agrees a st = (refl, refl)

module _ (p : Platform) (a : Args) (st : Config) where
  node_adds :
      (c : Client) (cfg : Config) (cluster_id node_id : String) (hs : Headers)
      → cfg.node_tokens ≡ st.node_tokens
      → NodeHeaders p c cfg cluster_id node_id hs
      → NodeHeaders p (made_for p a c.base_url none) st cluster_id node_id hs
  node_adds c cfg cluster_id node_id hs e (t, v, found, valid, same) =
      (t, v, rw (← e) found, valid, same)

  pub agent_adds :
      (c : Client) (cfg : Config) (cmd : AgentCmd) (hs : Headers)
      → cfg.node_tokens ≡ st.node_tokens
      → AgentHeaders p c cfg cmd hs
      → AgentHeaders p (made_for p a c.base_url none) st cmd hs
  agent_adds c cfg (register cluster_id join_token r) hs e h = h
  agent_adds c cfg (heartbeat cluster_id node_id s) hs e h = node_adds c cfg _ _ hs e h
  agent_adds c cfg (allocation cluster_id node_id) hs e h = node_adds c cfg _ _ hs e h
  agent_adds c cfg (placements cluster_id node_id) hs e h = node_adds c cfg _ _ hs e h
  agent_adds c cfg (report cluster_id node_id placement_id state container_id message) hs e h =
      node_adds c cfg _ _ hs e h
  agent_adds c cfg (deregister cluster_id node_id) hs e h = node_adds c cfg _ _ hs e h

  module _ (cmd : Command) where
    pub covers :
        (c : Client)
        → IsFor p a (credentials_of cmd (tenant_auth_of a st)) c
        → (method : Method) (path : String) (headers : Headers) (body : Option Value)
        → Adds p (made_for p a c.base_url none) st cmd headers
        → Covers (SentFor p a st cmd) p c method path headers body
    covers c (parsed, held, agent_text, tries) method path headers body adds url n u l =
        (c.base_url, path, headers, parsed, u, rw (held, agent_text) refl, adds, rw (← tries) l)
