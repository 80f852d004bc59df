-- ===== src/Cli/Nodes/Tokens.antt =====
-- cli/src/main.rs and config.rs: the token that a registration stores is found again.

use quiltc.Prelude.{String, ◌≡◌, refl, true, false, some, str_eq, str_eq_refl}
use quiltc.Prelude.Maps.{lookup, put, lookup-put}
use quiltc.Prelude.Text.{has_char}
use quiltc.Prelude.Text.Laws.{bar_cancel}
use quiltc.Control.Json.{Value, as_str}
use quiltc.Control.Json
use quiltc.Cli.Console.{Platform, Console, ok, ◌>>=◌}
use quiltc.Cli.Config.{Config, node_token_key}
use quiltc.Cli.Client.{Client}
use quiltc.Cli.Nodes.{load_node_token, registered_node_id, save, store_token, with_token}
use quiltc.Cli.Main.{load}

-- The configuration with the token of a node
abbrev pub stored_config : Client → Config → String → String → String → Config
stored_config c cfg cluster_id node_id token =
    with_token (node_token_key c.base_url cluster_id node_id) token cfg

-- If the file can be written, and what is written is read back, then storing the token of a
-- response that has a node and a token succeeds. The program's next run loads the configuration
-- that was left; the node's token is found there, and the other keys have what they had.
pub store_token_lem :
    (p : Platform) (c : Client) (cfg : Config) (cfg_path cluster_id node_id token : String)
    (v : Value) (w : Console)
    → w.writable cfg_path ≡ true
    → p.config_from_bytes (p.config_to_bytes (stored_config c cfg cluster_id node_id token))
      ≡ some (stored_config c cfg cluster_id node_id token)
    → registered_node_id v ≡ some node_id
    → as_str (Json.get "node_token" v) ≡ some token
    → (d : Config) × (u : Console) × (store_token p c cfg cfg_path cluster_id v w ≡ (ok d, u))
      × (load p cfg_path u ≡ (ok d, u))
      × (load_node_token d c.base_url cluster_id node_id u ≡ (ok token, u))
      × ((key : String)
          → str_eq (node_token_key c.base_url cluster_id node_id) key ≡ false
          → lookup key d.node_tokens ≡ lookup key cfg.node_tokens)
unfolding store_token save load load_node_token ◌>>=◌
store_token_lem p c cfg cfg_path cluster_id node_id token v w writes reads has_id has_token =
    let key : String = node_token_key c.base_url cluster_id node_id in
    let d : Config = with_token key token cfg in
    let u : Console = record w { files = put cfg_path (p.config_to_bytes d) w.files } in
    (
      d,
      u,
      rw (has_id, has_token, writes) refl,
      rw (lookup-put cfg_path cfg_path (p.config_to_bytes d) w.files, str_eq_refl cfg_path, reads)
          refl,
      rw (lookup-put key key token cfg.node_tokens, str_eq_refl key) refl,
      λ k other. rw (lookup-put key k token cfg.node_tokens, other) refl,
    )

-- Without a `|` in the addresses and the cluster ids, two nodes have the same key only if they
-- are the same node of the same cluster at the same address.
node_token_key_inj :
    (u u' c c' n n' : String)
    → has_char b'|' u ≡ false
    → has_char b'|' u' ≡ false
    → has_char b'|' c ≡ false
    → has_char b'|' c' ≡ false
    → node_token_key u c n ≡ node_token_key u' c' n'
    → (u ≡ u') × (c ≡ c') × (n ≡ n')
unfolding node_token_key
node_token_key_inj u u' c c' n n' hu hu' hc hc' e =
    let (same_u, rest) = bar_cancel u u' _ _ hu hu' e in
    let (same_c, same_n) = bar_cancel c c' _ _ hc hc' rest in (same_u, same_c, same_n)
