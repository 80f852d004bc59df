-- ===== src/Cli/Commands/Whole.antt =====
-- cli/src/main.rs, main: the whole program ends, whatever the service answers.

use quiltc.Prelude.{ℕ, List, [], ◌∷◌}
use quiltc.Cli.Console.{Console}
use quiltc.Cli.Config.{Config}
use quiltc.Cli.Client.{Client}
use quiltc.Cli.Main.{Command, containers, snapshots, operations, k8s}
use quiltc.Cli.Commands.Containers.{container_calls}
use quiltc.Cli.Commands.Others.{snapshot_calls, operation_calls}
use quiltc.Cli.Commands.Kubernetes.{Exits}
use quiltc.Cli.Commands.Exits.{exit_codes, k8s_calls}

-- The exit codes with which the program may fail
abbrev pub main_codes : Command → List ℕ
main_codes (k8s cmd) = 1 ∷ exit_codes cmd
main_codes cmd = 1 ∷ []

-- The calls that it makes at most
abbrev pub main_calls : Command → ℕ
main_calls (containers cmd) = container_calls cmd
main_calls (snapshots cmd) = snapshot_calls cmd
main_calls (operations cmd) = operation_calls cmd
main_calls (k8s cmd) = k8s_calls cmd
main_calls cmd = 1
