-- ===== src/Agent/ControlClient.antt =====
-- agent/src/control_client/mod.rs: the calls of the control plane.
use Prim.Native.String.{◌++◌}
use quiltc.Prelude.{ℕ, String, ◌&&◌, Option, none, some, List, Res, ok, err, leb, if◌then◌else◌}
use quiltc.Agent.Sync.{Node}
use quiltc.Agent.Host.{
  Host, RegisterNodeRequest, RegisterNodeResponse, Act, give, given, ◌>>=◌, ◌>>◌,
}

-- A response's body, where the status is a success.
module _ (show_status : ℕ → String) where
  abbrev pub of_reply : String → String → Option (ℕ × String) → Res String
  of_reply unsent failed none = err unsent
  of_reply unsent failed (some (status, body)) =
      if leb 200 status && leb status 299
      then ok body
      else err (failed ++ " (" ++ show_status status ++ "): " ++ body)

module _ (Env : Type 0) (h : Host Env) (base_url : String) where
  -- A request, with what is said of one that gets no response and of one that is refused
  abbrev pub ask : (Env → Option (ℕ × String) × Env) → String → String → Act Env String
  ask request unsent failed e =
      let r = request e in give (of_reply h.show_status unsent failed r.0) r.1

  unfoldable pub register_node : RegisterNodeRequest → Act Env RegisterNodeResponse
  register_node req = do
    body ←
        ask (h.post (base_url ++ "/api/nodes/register") (some req))
          "Failed to send registration request" "Registration failed"
    give (given "Failed to parse registration response" (h.read_registration body))

  unfoldable pub heartbeat : String → Act Env Unit
  heartbeat node_id =
      ask (h.post (base_url ++ "/api/nodes/" ++ node_id ++ "/heartbeat") none)
        "Failed to send heartbeat" "Heartbeat failed"
      >> give (ok tt)

  unfoldable pub deregister : String → Act Env Unit
  deregister node_id =
      ask (h.post (base_url ++ "/api/nodes/" ++ node_id ++ "/deregister") none)
        "Failed to send deregister request" "Deregister failed"
      >> give (ok tt)

  unfoldable pub list_nodes : Act Env (List Node)
  list_nodes = do
    body ← ask (h.get (base_url ++ "/api/nodes")) "Failed to list nodes" "List nodes failed"
    give (given "Failed to parse list nodes response" (h.read_nodes body))
