-- ===== src/Cli/Commands/Nodes.antt =====
-- cli/src/main.rs, run_agent: whose token a call carries.
use quiltc.Prelude.{String, ◌≡◌, refl, Option, some, [], ◌∷◌}
use quiltc.Prelude.Maps.{lookup}
use quiltc.Control.Json.{Value}
use quiltc.Cli.Http.{Method}
use quiltc.Cli.Console.{Platform, ServiceCall, ◌>>=◌, ◌>>◌, pure}
use quiltc.Cli.Console.Contracts.{
  Meets, Meets-bind, Meets-pure, Meets-some_or, Meets-print, Meets-write_file,
}
use quiltc.Cli.Config.{Config, node_token_key}
use quiltc.Cli.Client.{Client, Headers, send_json}
use quiltc.Cli.Client.Calls.{Covers, Meets-call, Meets-send_json}
use quiltc.Cli.Nodes.{
  AgentCmd, Registration, register, heartbeat, allocation, placements, report, deregister,
  load_node_token, save, store_token, register_node, node_headers, run_agent,
}

-- The header with the token that is stored for a node
abbrev pub NodeHeaders : Platform → Client → Config → String → String → Headers → Type 0
NodeHeaders p c cfg cluster_id node_id headers =
    (token : String) × (value : String) × (lookup (node_token_key c.base_url cluster_id node_id)
        cfg.node_tokens
      ≡ some token)
    × (p.header_value token ≡ some value)
    × (headers ≡ ("x-quilt-node-token", value) ∷ [])

-- The header with the join token that was given
abbrev pub JoinHeaders : Platform → Option String → Headers → Type 0
JoinHeaders p join_token headers =
    (token : String) × (value : String) × (join_token ≡ some token)
    × (p.header_value token ≡ some value)
    × (headers ≡ ("x-quilt-join-token", value) ∷ [])

-- The headers that a command may send
abbrev pub AgentHeaders : Platform → Client → Config → AgentCmd → Headers → Type 0
AgentHeaders p c cfg (register cluster_id join_token r) = JoinHeaders p join_token
AgentHeaders p c cfg (heartbeat cluster_id node_id s) = NodeHeaders p c cfg cluster_id node_id
AgentHeaders p c cfg (allocation cluster_id node_id) = NodeHeaders p c cfg cluster_id node_id
AgentHeaders p c cfg (placements cluster_id node_id) = NodeHeaders p c cfg cluster_id node_id
AgentHeaders p c cfg (report cluster_id node_id placement_id state container_id message) =
    NodeHeaders p c cfg cluster_id node_id
AgentHeaders p c cfg (deregister cluster_id node_id) = NodeHeaders p c cfg cluster_id node_id

module _ (p : Platform) (c : Client) (cfg : Config) (cfg_path : String) (Q : ServiceCall → Type 0)
    (R : String → Type 0) (fails : (e : String) → R e) where
  Meets-node_headers :
      (cluster_id node_id : String)
      → Meets Q R 0
          (NodeHeaders p c cfg cluster_id node_id)
          (node_headers p c cfg cfg_path cluster_id node_id)
  unfolding node_headers load_node_token
  Meets-node_headers cluster_id node_id =
      Meets-bind Q R
        (λ t. lookup (node_token_key c.base_url cluster_id node_id) cfg.node_tokens ≡ some t) _ 0 0
        _ _ (Meets-some_or Q R _ _ _ (fails _) (λ t e. e))
        (λ t stored.
          Meets-bind Q R (λ v. p.header_value t ≡ some v) _ 0 0 _ _
            (Meets-some_or Q R _ _ _ (fails _) (λ v e. e))
            (λ v valid. Meets-pure Q R _ _ (t, v, stored, valid, refl)))

  Meets-store_token :
      (cluster_id : String) (v : Value)
      → Meets Q R 0 (λ d. Unit) (store_token p c cfg cfg_path cluster_id v)
  unfolding store_token save
  Meets-store_token cluster_id v =
      Meets-bind Q R (λ i. Unit) _ 0 0 _ _ (Meets-some_or Q R _ _ _ (fails _) (λ i e. tt))
        (λ i t.
          Meets-bind Q R (λ k. Unit) _ 0 0 _ _ (Meets-some_or Q R _ _ _ (fails _) (λ k e. tt))
            (λ k t.
              Meets-bind Q R _ _ 0 0 _ _ (Meets-write_file Q R _ _ _ (fails _))
                (λ u t. Meets-pure Q R _ _ tt)))

  Meets-register :
      (cluster_id : String) (join_token : Option String) (r : Registration)
      → ((method : Method) (path : String) (headers : Headers) (body : Option Value)
          → JoinHeaders p join_token headers
          → Covers Q p c method path headers body)
      → Meets Q R 1 (λ d. Unit) (register_node p c cfg cfg_path cluster_id join_token r)
  unfolding register_node
  Meets-register cluster_id join_token r covers =
      Meets-bind Q R (λ t. join_token ≡ some t) _ 0 1 _ _
        (Meets-some_or Q R _ _ _ (fails _) (λ t e. e))
        (λ t given.
          Meets-bind Q R (λ v. p.header_value t ≡ some v) _ 0 1 _ _
            (Meets-some_or Q R _ _ _ (fails _) (λ v e. e))
            (λ v valid.
              Meets-bind Q R _ _ 1 0 _ _
                (Meets-call p c Q R fails _ _ _ _ (covers _ _ _ _ (t, v, given, valid, refl)))
                (λ b u.
                  Meets-bind Q R (λ j. Unit) _ 0 0 _ _
                    (Meets-some_or Q R _ _ _ (fails _) (λ j e. tt))
                    (λ j u.
                      Meets-bind Q R _ _ 0 0 _ _ (Meets-print Q R _)
                        (λ o u. Meets-store_token cluster_id j)))))

  Meets-as_node :
      (cluster_id node_id : String) (method : Method) (path : String) (body : Option Value)
      → ((method : Method) (path : String) (headers : Headers) (body : Option Value)
          → NodeHeaders p c cfg cluster_id node_id headers
          → Covers Q p c method path headers body)
      → Meets Q R 1
          (λ d. Unit)
          (node_headers p c cfg cfg_path cluster_id node_id >>= λ headers.
            send_json p c method path headers body >> pure cfg)
  Meets-as_node cluster_id node_id method path body covers =
      Meets-bind Q R _ _ 0 1 _ _ (Meets-node_headers cluster_id node_id) (λ headers h.
        Meets-bind Q R _ _ 1 0 _ _
          (Meets-send_json p c Q R fails method path headers body (covers _ _ _ _ h))
          (λ u t. Meets-pure Q R _ _ tt))

  -- Every command of a node makes one call at most, with the headers that it may send.
  pub Meets-run_agent :
      (cmd : AgentCmd)
      → ((method : Method) (path : String) (headers : Headers) (body : Option Value)
          → AgentHeaders p c cfg cmd headers
          → Covers Q p c method path headers body)
      → Meets Q R 1 (λ d. Unit) (run_agent p c cfg cfg_path cmd)
  unfolding run_agent
  Meets-run_agent (register cluster_id join_token r) covers =
      Meets-register cluster_id join_token r covers
  Meets-run_agent (heartbeat cluster_id node_id s) covers = Meets-as_node _ _ _ _ _ covers
  Meets-run_agent (allocation cluster_id node_id) covers = Meets-as_node _ _ _ _ _ covers
  Meets-run_agent (placements cluster_id node_id) covers = Meets-as_node _ _ _ _ _ covers
  Meets-run_agent (report cluster_id node_id placement_id state container_id message) covers =
      Meets-as_node _ _ _ _ _ covers
  Meets-run_agent (deregister cluster_id node_id) covers = Meets-as_node _ _ _ _ _ covers
