-- ===== src/Cli/Tests/Data.antt =====
-- cli/src: a platform, a client, and a service that answers.
use Prim.Native.String.{◌++◌}
use quiltc.Prelude.{
  String, true, false, Option, none, some, [], ◌∷◌, ◌==◌, str_eq, err, if◌then◌else◌,
}
use quiltc.Control.Json.{Value, boolean, string, json}
use quiltc.Cli.Http.{HttpReply}
use quiltc.Cli.Console.{Platform, Console}
use quiltc.Cli.Config.{Config, no_config, node_token_key}
use quiltc.Cli.Nodes.{with_token}
use quiltc.Cli.Args.{nat_value}
use quiltc.Cli.Client.{Client}
use quiltc.Cli.Mutations.{
  MutationControlArgs, LifecycleRequestArgs, crash_consistent, reset, exclude, manual,
}

-- Texts stand for the JSON of some values.
abbrev pub value_of : String → Option Value
value_of s =
    if str_eq s "running"
    then some (json (("status", string "running") ∷ []))
    else if str_eq s "done"
    then some (json (("status", string "succeeded") ∷ []))
    else if str_eq s "capabilities"
    then some (json (("capabilities", json (("snapshot", boolean false) ∷ [])) ∷ []))
    else if str_eq s "file"
    then some
        (json (("path", string "/up") ∷ ("content", string "eA==") ∷ ("mode", nat_value 420) ∷ []))
    else none

-- A configuration with the token of a node
abbrev pub stored : Config
stored = with_token (node_token_key "http://quilt" "c1" "n1") "t1" no_config

abbrev pub platform : Platform
platform = record {
  from_text = value_of;
  from_bytes = λ b. none;
  to_text = λ v. "";
  parse_error = λ s. none;
  config_to_bytes = λ d. [];
  config_from_bytes = λ b. some stored;
  show_nat = λ n. "";
  debug_text = λ s. s;
  show_duration = λ n. "";
  to_lowercase = λ s. s;
  to_uppercase = λ s. s;
  base64_encode = λ b. "eA==";
  base64_decode = λ s. if str_eq s "eA==" then some (120 ∷ []) else none;
  parse_url = λ s. some s;
  join_url = λ base path. some (base ++ path);
  header_name = λ s. some s;
  header_value = λ s. some s;
  valid_method = λ m. false;
  file_name = λ s. some s;
  extension = λ s. some "yaml";
  utf8_text = λ b. some "";
  text_bytes = λ s. [];
  default_config_path = "config.json";
  version = "1";
}

abbrev pub client : Client
client = record {
  base_url = "http://quilt";
  tenant_auth = none;
  user_agent = "quiltc/1";
  retries = 2;
}

abbrev pub reply : String → Option HttpReply
reply b = some (record { status = 200; retry_after_header = none; body = b })

-- The first call is answered with one text, the later ones with another.
abbrev pub answering : String → String → Console
answering first later = record {
  files = [];
  writable = λ f. true;
  pages = λ url. err "";
  replies = λ n k. reply (if n == 0 then first else later);
  delays = λ n. 1;
  uuids = λ n. if n == 0 then "id0" else "id1";
  drawn = 0;
  now = 0;
  calls = [];
  output = [];
}

abbrev pub plain_args : MutationControlArgs
plain_args = record {
  idempotency_key = none;
  wait = false;
  timeout_secs = 1;
  cluster_id = none;
  require_capability = [];
}

abbrev pub snapshot_args : MutationControlArgs
snapshot_args = record {
  idempotency_key = none;
  wait = false;
  timeout_secs = 1;
  cluster_id = some "c1";
  require_capability = "snapshot" ∷ [];
}

abbrev pub lifecycle_args : LifecycleRequestArgs
lifecycle_args = record {
  consistency_mode = crash_consistent;
  network_mode = reset;
  volume_mode = exclude;
  resume_policy = manual;
  placement_hint_json = none;
  ttl_seconds = none;
  label = [];
  dry_run = false;
  async_mode = none;
  mutation = plain_args;
}
