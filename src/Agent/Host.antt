-- ===== src/Agent/Host.antt =====
-- agent/src: what the agent's start-up calls: the kernel's links behind the crate rtnetlink, the
-- control plane over HTTP, the runtime's connection, and the system's name.
use quiltc.Prelude.{ℕ, String, Option, none, some, List, Res, ok, err}
use quiltc.Runtime.Service.{RpcResponse}
use quiltc.Agent.Sync.{Node}

pub record RegisterNodeRequest : Type 0 where
  pub hostname : String
  pub host_ip : String
  pub cpu_cores : Option ℕ
  pub ram_mb : Option ℕ

pub record RegisterNodeResponse : Type 0 where
  pub node_id : String
  pub subnet : String

-- A response's status code and body; `none` is a request that gets none.
pub record Host (Env : Type 0) : Type 0 where
  pub netlink : Env → Res {0} Unit × Env
  pub link_index : String → Env → Res (Option ℕ)
  pub add_vxlan : String → ℕ → Env → Res {0} Unit × Env
  pub set_up : ℕ → Env → Res {0} Unit × Env
  pub set_master : ℕ → ℕ → Env → Res {0} Unit × Env
  pub control_client : Res {0} Unit
  pub post : String → Option RegisterNodeRequest → Env → Option (ℕ × String) × Env
  pub get : String → Env → Option (ℕ × String) × Env
  pub read_registration : String → Option RegisterNodeResponse
  pub read_nodes : String → Option (List Node)
  pub show_status : ℕ → String
  pub show_ipv4 : ℕ → String
  pub connect : String → Env → Res {0} Unit × Env
  pub configure : String → Env → Res RpcResponse × Env
  pub system_hostname : Res String
  pub cpu_cores : ℕ
  pub total_memory : ℕ

-- An action on what is outside the agent, which may return an error.
module _ (Env : Type 0) where
  abbrev pub Act : Type 0 → Type 0
  Act A = Env → Res A × Env

abbrev pub resume_with : {Env A B : Type 0} → Res A × Env → (A → Act Env B) → Res B × Env
resume_with (ok a, e) f = f a e
resume_with (err x, e) f = (err x, e)

unfoldable pub give : {Env A : Type 0} → Res A → Act Env A
give r e = (r, e)

infixl 5 ◌>>=◌ ◌>>◌
unfoldable pub ◌>>=◌ : {Env A B : Type 0} → Act Env A → (A → Act Env B) → Act Env B
unfolding give
◌>>=◌ m f e = resume_with (m e) f

abbrev pub ◌>>◌ : {Env A B : Type 0} → Act Env A → Act Env B → Act Env B
m >> k = m >>= λ _. k

abbrev with_text : {A : Type 0} → String → Res A → Res A
with_text text (ok a) = ok a
with_text text (err e) = err text

-- `context(…)`
unfoldable pub context : {Env A : Type 0} → String → Act Env A → Act Env A
context text m e = (with_text text (m e).0, (m e).1)

abbrev pub given : {A : Type 0} → String → Option A → Res A
given text none = err text
given text (some a) = ok a
