-- ===== src/Cli/Config.antt =====
-- cli/src/config.rs: the configuration, and the names of the stored node tokens.
use Prim.Native.String.{◌++◌}
use quiltc.Prelude.{String, Option, none, List, []}
use quiltc.Prelude.Text.{bar}

pub record Config : Type 0 where
  pub base_url : Option String
  pub tenant_api_key : Option String
  pub tenant_jwt : Option String
  pub node_tokens : List (String × String)

-- `Config::default()`
abbrev pub no_config : Config
no_config = record { base_url = none; tenant_api_key = none; tenant_jwt = none; node_tokens = [] }

unfoldable pub node_token_key : String → String → String → String
node_token_key base_url cluster_id node_id = base_url ++ bar (cluster_id ++ bar node_id)
