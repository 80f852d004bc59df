-- ===== src/Lib.antt =====
-- Quilt mesh (quiltc): a control plane that steers elastic workloads, the container runtime on each
-- node, the mesh agent that connects the nodes, and the command line.
--
-- The parts. The control plane (control/) keeps policies, objectives, observations, intents and
-- actions in SQLite. Its API writes policies and observations; the fast loop turns observations
-- into intents and queues actions, the slow loop queues actions that scale node groups, and the
-- dispatch loop sends due actions to a backend over HTTP and polls them to their end. The runtime
-- (runtime/) hands out container addresses within the node's subnet and keeps kernel routes to the
-- other nodes' subnets. The agent (agent/) lists the nodes every few seconds, keeps the forwarding
-- entries of its peers and asks the runtime for their routes. The command line (cli/) calls the
-- service over HTTP for its commands, keeps the tokens of nodes, and waits for operations.
--
-- How it is modelled.
--   Prelude: tests on natural numbers, lists, sets and maps as lists (Prelude.Sets, Prelude.Maps),
--     `anyhow::Result` (Res), integers, and texts with Rust's operations on `str` (Prelude.Text).
--   Control.Json: serde_json's values, canonical_json. Control.Rows: the tables' rows and the
--     structs of control/src/types.rs. An `f64` is its bit pattern, and every operation on it is a
--     parameter.
--   Control.World: the data base as lists of rows, with the clock, fresh identifiers and HTTP
--     replies as the environment's answers. A function that may fail is an action on the world;
--     what was written before an error stays, except inside `transaction`.
--   Control.Codes, Actions, Remote, Plan, Dispatch, Decide, Loops: the functions of
--     control/src/services/orchestrator.rs under their names. run_fast_loop_tx is split into
--     fast_step, decide, make_intent, is_held and publish; process_action into expire, poll, submit,
--     plan (the match on the type), record_dispatch and record_error.
--   Control.Api: control/src/api/orchestrator.rs. Control.System: start_loops and the API as a step
--     relation, where each loop and each request runs to its end before the next one.
--   Runtime.Ipam: runtime/src/ipam.rs, with configure_subnet, allocate_ip and release_ip on an
--     explicit state. Runtime.Routes: runtime/src/route_manager.rs, the Linux build, over a kernel
--     that is a parameter. Runtime.Service: the RPCs of runtime/src/service.rs.
--     Runtime.Main: main of runtime/src/main.rs, with the calls it serves one after another.
--   Agent.Peers: the table of agent/src/overlay/vxlan.rs and the calls of
--     agent/src/quilt_client/mod.rs. Agent.Sync: an iteration of peer_sync_loop and
--     graceful_shutdown of agent/src/main.rs. Agent.Address: std's reading of an address.
--   Agent.Vxlan: the interface of agent/src/overlay/vxlan.rs, the Linux build. Agent.ControlClient:
--     agent/src/control_client/mod.rs. Agent.Life: main of agent/src/main.rs, its start, the rounds
--     of heartbeat_loop and peer_sync_loop in any order, each run to its end, and the shutdown.
--     Agent.Host: what they call, the kernel's links, HTTP, the runtime's connection, as a parameter.
--   Agent.Routed: the agent and the runtime's service together, where each call arrives.
--   Cli.Console: what a command runs in (files, clock, answers of the service, output) and the
--     actions of its do blocks; Platform holds what the commands call and the code does not define.
--   Cli.Http and Cli.Client: cli/src/http_client.rs, the retry loop and the operations of Client.
--     Cli.Config: cli/src/config.rs. Cli.Operations: cli/src/snapshot_types.rs, and the waiting for
--     and the printing of an operation. Cli.Encode and Cli.Args: the helpers of cli/src/main.rs.
--   Cli.Clusters, Accounts, Volumes, Nodes, Capabilities, Mutations, Containers, Snapshots, Requests
--     and Kubernetes (with Commands, Manifests and Responses): a command enum and its run_ function
--     in cli/src/main.rs each. Cli.Main: main itself. A command of two enums (Get and Resource) is
--     one constructor.
--   Cli.Console.Contracts: a command meets a contract if it does not run out of fuel, gives values
--     and errors of some kind, and makes at most so many calls of some kind; Cli.Console.Polls has
--     the loops that wait, and Cli.Commands the contracts of the commands, put together in Whole.
--   Externals (in Control.World), Ipnet, Netlink and Mesh hold what the code calls and does not
--     define: serde_json's text form, SHA-256, floating-point operations, the crates ipnet and
--     rtnetlink with the kernel behind, and the runtime behind the generated client. Nothing is
--     assumed of them but what a theorem's hypotheses name.
--
-- Bounds. A `u32` and a clock reading are natural numbers; sums that can pass 2^32 are reduced
-- (u32), and differences of `i64` clock readings are integers. An `i64` is not bounded. Most loops
-- are structural. Three run on fuel: trim_start_matches, whose rounds are bounded by the text's
-- length, since each removes a character; send_json_bytes, with one unit for each attempt; and the
-- loop of wait_for_operation_value and k8s_wait_for_apply_operation, with one for each sleep that
-- fits into the time-out and two more. What runs out of fuel in a command is the result `stuck`,
-- which a contract excludes.
--
-- Not modelled: the connection pool, TLS but for the runtime's choice of it, argument parsing,
-- logging, timers, the walk through directories of manifests (the files below a directory are
-- those of a flat list, in the order of their paths), a response's body that breaks off, and two
-- calls of the route manager on one destination at the same time. SQLite's order of rows with
-- equal sort keys is taken as the order of insertion; a HashSet's elements are visited in the
-- order of the list.
pub mod Prelude
pub mod Runtime
pub mod Agent
pub mod Cli
pub mod Control
