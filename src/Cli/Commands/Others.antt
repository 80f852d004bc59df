-- ===== src/Cli/Commands/Others.antt =====
-- cli/src/main.rs: the commands on snapshots and operations, and the requests that the user
-- writes.
use quiltc.Prelude.{ℕ, ◌≡◌, ◌+◌, ◌*◌, String, Option, none, some, List, [], ◌∷◌, arith}
use quiltc.Prelude.Text.{Split, whole, parts, split_once}
use quiltc.Control.Json.{Value}
use quiltc.Cli.Http.{Method, get}
use quiltc.Cli.Console.{Platform, ServiceCall, Console, ok}
use quiltc.Cli.Console.Contracts.{
  Meets, Meets-bind, Meets-bail, Meets-pure, Meets-some_or, Meets-if, Meets-more, Meets-same,
}
use quiltc.Cli.Client.{Client, Headers}
use quiltc.Cli.Client.Calls.{
  Covers, IsOwn, Meets-call, Meets-send_json, Meets-download, Meets-stream,
}
use quiltc.Cli.Mutations.{MutationControlArgs, run_operation_mutation}
use quiltc.Cli.Snapshots.{SnapshotCmd, OperationCmd, show_operation, run_snapshots, run_operations}
use quiltc.Cli.Snapshots
use quiltc.Cli.Requests.{
  RequestArgs, parse_method, header_kv, parse_header, parse_headers, send, run_request,
}
use quiltc.Cli.Commands.Simple.{Meets-optional_json, Meets-plain}
use quiltc.Cli.Commands.Changes.{rounds, Meets-wait, Meets-shown, Meets-mutation, Meets-lifecycle}
use quiltc.Cli.Commands.Containers.{calls_of}

abbrev pub mutation_calls : MutationControlArgs → ℕ
mutation_calls o = 3 + rounds (1000 * o.timeout_secs)

abbrev pub snapshot_calls : SnapshotCmd → ℕ
snapshot_calls (Snapshots.delete_snapshot id o) = mutation_calls o
snapshot_calls (Snapshots.pin id o) = mutation_calls o
snapshot_calls (Snapshots.unpin id o) = mutation_calls o
snapshot_calls (Snapshots.clone id o) = calls_of o
snapshot_calls cmd = 1

abbrev pub operation_calls : OperationCmd → ℕ
operation_calls (Snapshots.get_operation id) = 1
operation_calls (Snapshots.watch id timeout_secs) = rounds (1000 * timeout_secs)

module _ (p : Platform) (c : Client) (Q : ServiceCall → Type 0) (R : String → Type 0)
    (fails : (e : String) → R e)
    (covers : (method : Method) (path : String) (headers : Headers) (body : Option Value)
      → IsOwn headers
      → Covers Q p c method path headers body) where
  mutates :
      (method : Method) (path : String) (body : Option Value) (o : MutationControlArgs)
      → Meets Q R (mutation_calls o) (λ t. Unit) (run_operation_mutation p c method path body o)
  mutates method path body o =
      Meets-mutation p c Q R fails (λ path. covers get path [] none tt) method path
        (λ headers body. covers method path headers body) body o

  pub Meets-run_snapshots :
      (cmd : SnapshotCmd) → Meets Q R (snapshot_calls cmd) (λ t. Unit) (run_snapshots p c cmd)
  unfolding run_snapshots
  Meets-run_snapshots (Snapshots.list id label) = Meets-plain p c Q R fails covers _ _ _ _ tt
  Meets-run_snapshots (Snapshots.get_snapshot id) = Meets-plain p c Q R fails covers _ _ _ _ tt
  Meets-run_snapshots (Snapshots.lineage id) = Meets-plain p c Q R fails covers _ _ _ _ tt
  Meets-run_snapshots (Snapshots.delete_snapshot id o) = mutates _ _ _ o
  Meets-run_snapshots (Snapshots.pin id o) = mutates _ _ _ o
  Meets-run_snapshots (Snapshots.unpin id o) = mutates _ _ _ o
  Meets-run_snapshots (Snapshots.clone id o) =
      Meets-lifecycle p c Q R fails (λ path. covers get path [] none tt) _ _
        (λ headers body. covers _ _ headers body) o

  Meets-show_operation :
      (id : String) (v : Value) → Meets Q R 0 (λ t. Unit) (show_operation p c id v)
  unfolding show_operation
  Meets-show_operation id v = Meets-shown p c Q R fails (λ path. covers get path [] none tt) _ _ _

  pub Meets-run_operations :
      (cmd : OperationCmd) → Meets Q R (operation_calls cmd) (λ t. Unit) (run_operations p c cmd)
  unfolding run_operations
  Meets-run_operations (Snapshots.get_operation id) =
      Meets-bind Q R _ _ 1 0 _ _ (Meets-call p c Q R fails _ _ _ _ (covers _ _ _ _ tt)) (λ b t.
        Meets-bind Q R (λ v. Unit) _ 0 0 _ _ (Meets-some_or Q R _ _ _ (fails _) (λ v e. tt))
          (λ v t. Meets-show_operation id v))
  Meets-run_operations (Snapshots.watch id timeout_secs) = Meets-more Q R _ _ _ _ (omega arith) (
      Meets-bind Q R _ _ _ 0 _ _
        (Meets-wait p c Q R fails (λ path. covers get path [] none tt) id (1000 * timeout_secs))
        (λ v t. Meets-show_operation id v))

-- What the user wrote as headers, read
abbrev pub Written : Platform → RequestArgs → Headers → Type 0
Written p a headers = (w : Console) × ((parse_headers p a.header [] w).0 ≡ ok headers)

module _ (p : Platform) (c : Client) (Q : ServiceCall → Type 0) (R : String → Type 0)
    (fails : (e : String) → R e) (a : RequestArgs)
    (covers : (method : Method) (path : String) (headers : Headers) (body : Option Value)
      → Written p a headers
      → Covers Q p c method path headers body) where
  Meets-method : (m : String) → Meets Q R 0 (λ m. Unit) (parse_method p m)
  unfolding parse_method
  Meets-method m = Meets-some_or Q R _ _ _ (fails _) (λ v e. tt)

  Meets-header : (s : Split) → Meets Q R 0 (λ kv. Unit) (parse_header p s)
  unfolding header_kv
  Meets-header whole = Meets-bail Q R _ _ (fails _)
  Meets-header (parts k v) =
      Meets-bind Q R (λ v. Unit) _ 0 0 _ _ (Meets-some_or Q R _ _ _ (fails _) (λ v e. tt))
        (λ n t.
          Meets-bind Q R (λ v. Unit) _ 0 0 _ _ (Meets-some_or Q R _ _ _ (fails _) (λ v e. tt))
            (λ v t. Meets-pure Q R _ _ tt))

  Meets-headers :
      (hs : List String) (out : Headers) → Meets Q R 0 (λ hs. Unit) (parse_headers p hs out)
  unfolding parse_headers
  Meets-headers [] out = Meets-pure Q R _ _ tt
  Meets-headers (h ∷ hs) out =
      Meets-bind Q R _ _ 0 0 _ _ (Meets-header (split_once b':' h)) (λ kv t. Meets-headers hs _)

  Meets-sent :
      (method : Method) (headers : Headers) (body : Option Value) (out : Option String)
      → Written p a headers
      → Meets Q R 1 (λ t. Unit) (send p c method a headers body out)
  Meets-sent method headers body (some path) given =
      Meets-if Q R _ _ 1 _ _ (Meets-download p c Q R fails _ _ _ (covers _ _ _ _ given))
        (Meets-more Q R _ 0 1 _ (omega arith) (Meets-bail Q R _ _ (fails _)))
  Meets-sent method headers body none given =
      Meets-if Q R _ _ 1 _ _ (Meets-stream p c Q R fails _ _ _ _ (covers _ _ _ _ given))
        (Meets-send_json p c Q R fails _ _ _ _ (covers _ _ _ _ given))

  pub Meets-run_request : Meets Q R 1 (λ t. Unit) (run_request p c a)
  unfolding run_request
  Meets-run_request = Meets-bind Q R _ _ 0 1 _ _ (Meets-method _) (λ m t.
      Meets-bind Q R _ _ 0 1 _ _ (Meets-optional_json p Q R fails a.json_body) (λ b t.
        Meets-bind Q R (Written p a) _ 0 1 _ _ (Meets-same Q R _ _ _ (Meets-headers a.header []))
          (λ hs given. Meets-sent m hs b a.out given)))
