-- ===== src/Cli/Commands/Containers.antt =====
-- cli/src/main.rs: the commands on containers.
use quiltc.Prelude.{
  ℕ, ◌+◌, ◌*◌, String, Bool, false, Option, none, [], inl, inr, Bool-cases, arith, is_some,
}
use quiltc.Control.Json.{Value, null, boolean, number, string, array, object, Fields, as_str}
use quiltc.Control.Json
use quiltc.Cli.Http.{Method, get, post}
use quiltc.Cli.Console.{Platform, ServiceCall, M, bail}
use quiltc.Cli.Console.Contracts.{Meets, Meets-bind, Meets-bail, Meets-pure, Meets-more}
use quiltc.Cli.Client.{Client, Headers, send_json}
use quiltc.Cli.Client.Calls.{Covers, IsOwn}
use quiltc.Cli.Args.{maybe_set_async_mode}
use quiltc.Cli.Mutations.{LifecycleRequestArgs, run_lifecycle_mutation}
use quiltc.Cli.Containers.{ContainerCmd, send_items, send_batch, run_containers}
use quiltc.Cli.Containers
use quiltc.Cli.Commands.Simple.{Meets-parse_json_arg, Meets-plain}
use quiltc.Cli.Commands.Changes.{rounds, Meets-lifecycle}

-- The calls of a command that changes something
abbrev pub calls_of : LifecycleRequestArgs → ℕ
calls_of o = 3 + rounds (1000 * o.mutation.timeout_secs)

abbrev pub container_calls : ContainerCmd → ℕ
container_calls (Containers.snapshot id o) = calls_of o
container_calls (Containers.fork id o) = calls_of o
container_calls (Containers.resume_container id o) = calls_of o
container_calls cmd = 1

module _ (p : Platform) (c : Client) (Q : ServiceCall → Type 0) (R : String → Type 0)
    (fails : (e : String) → R e)
    (covers : (method : Method) (path : String) (headers : Headers) (body : Option Value)
      → IsOwn headers
      → Covers Q p c method path headers body) where
  abbrev Plain : M String Unit → Type 0
  Plain m = Meets Q R 1 (λ t. Unit) m

  sends :
      (method : Method) (path : String) (headers : Headers) (body : Option Value)
      → IsOwn headers
      → Plain (send_json p c method path headers body)
  sends = Meets-plain p c Q R fails covers

  refuses : (e : String) → Plain (bail e)
  refuses e = Meets-more Q R _ 0 1 _ (omega arith) (Meets-bail Q R _ e (fails e))

  Meets-send_items : (mode : Option Bool) (r : Fields) → Plain (send_items p c mode r)
  Meets-send_items mode r = elim (Bool-cases (is_some (Json.lookup "items" r))) [
    | inl e ↦ rw e (sends _ _ _ _ tt)
    | inr e ↦ rw e (refuses _)
  ]

  Meets-send_batch : (mode : Option Bool) (v : Value) → Plain (send_batch p c mode v)
  unfolding send_batch
  Meets-send_batch mode (array items) = Meets-send_items mode _
  Meets-send_batch mode (object r) = Meets-send_items mode r
  Meets-send_batch mode null = refuses _
  Meets-send_batch mode (boolean b) = refuses _
  Meets-send_batch mode (number n) = refuses _
  Meets-send_batch mode (string s) = refuses _

  Meets-set_async :
      (v : Value) (mode : Option Bool) (d : Bool)
      → Meets Q R 0 (λ v. Unit) (maybe_set_async_mode v mode d)
  unfolding maybe_set_async_mode
  Meets-set_async (object r) mode d = Meets-pure Q R _ _ tt
  Meets-set_async (array items) mode d = Meets-bail Q R _ _ (fails _)
  Meets-set_async null mode d = Meets-bail Q R _ _ (fails _)
  Meets-set_async (boolean b) mode d = Meets-bail Q R _ _ (fails _)
  Meets-set_async (number n) mode d = Meets-bail Q R _ _ (fails _)
  Meets-set_async (string s) mode d = Meets-bail Q R _ _ (fails _)

  lifecycle :
      (path : String) (o : LifecycleRequestArgs)
      → Meets Q R (calls_of o) (λ t. Unit) (run_lifecycle_mutation p c post path o)
  lifecycle path o =
      Meets-lifecycle p c Q R fails (λ path. covers get path [] none tt) post path
        (λ headers body. covers post path headers body) o

  pub Meets-run_containers :
      (cmd : ContainerCmd) → Meets Q R (container_calls cmd) (λ t. Unit) (run_containers p c cmd)
  unfolding run_containers
  Meets-run_containers Containers.list = sends _ _ _ _ tt
  Meets-run_containers (Containers.create spec mode) =
      Meets-bind Q R _ _ 0 1 _ _ (Meets-parse_json_arg p Q R fails spec)
        (λ v t. Meets-bind Q R _ _ 0 1 _ _ (Meets-set_async v mode false) (λ b t. sends _ _ _ _ tt))
  Meets-run_containers (Containers.batch_create spec mode) =
      Meets-bind Q R _ _ 0 1 _ _ (Meets-parse_json_arg p Q R fails spec)
        (λ v t. Meets-send_batch mode v)
  Meets-run_containers (Containers.get_container id) = sends _ _ _ _ tt
  Meets-run_containers (Containers.delete_container id mode) = sends _ _ _ _ tt
  Meets-run_containers (Containers.start id mode) = sends _ _ _ _ tt
  Meets-run_containers (Containers.stop id mode) = sends _ _ _ _ tt
  Meets-run_containers (Containers.kill id) = sends _ _ _ _ tt
  Meets-run_containers (Containers.exec id command) = sends _ _ _ _ tt
  Meets-run_containers (Containers.logs id) = sends _ _ _ _ tt
  Meets-run_containers (Containers.metrics id) = sends _ _ _ _ tt
  Meets-run_containers (Containers.network_get id) = sends _ _ _ _ tt
  Meets-run_containers (Containers.network_put id spec) =
      Meets-bind Q R _ _ 0 1 _ _ (Meets-parse_json_arg p Q R fails spec) (λ v t. sends _ _ _ _ tt)
  Meets-run_containers (Containers.network_setup id) = sends _ _ _ _ tt
  Meets-run_containers (Containers.route_add id destination) = sends _ _ _ _ tt
  Meets-run_containers (Containers.route_del id destination) = sends _ _ _ _ tt
  Meets-run_containers (Containers.snapshot id o) = lifecycle _ o
  Meets-run_containers (Containers.fork id o) = lifecycle _ o
  Meets-run_containers (Containers.resume_container id o) = lifecycle _ o
