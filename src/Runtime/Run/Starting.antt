-- ===== src/Runtime/Run/Starting.antt =====
-- What Run passes to its child (internal/runtime/run_linux.go) starts the workload's command there.
use kernlet.Common.{List, ◌∷◌, [], Bytes, ◌≤◌}
use kernlet.Text.Decimal.{max_u32}
use kernlet.FilePath.{clean}
use kernlet.FilePath.Clean.{clean-clean}
use kernlet.Sys.{Os}
use kernlet.Sys.Works.{Total}
use kernlet.Runtime.Config.{Config}
use kernlet.Runtime.Network.{WorkloadNetwork}
use kernlet.Runtime.Arguments.{init_arguments, tail, read_back, parse_arguments-init_arguments}
use kernlet.Runtime.Init.{init_process}
use kernlet.Runtime.Init.Starts.{IsWillingChild, IsStarted, init_process-IsStarted}
use kernlet.Runtime.Run.{or_root}
use kernlet.Runtime.Run.Complete.{IsRunnable}

-- The configuration as Run's checks return it.
abbrev pub checked_config : Config → Config
checked_config config = record config {
  rootfs = clean config.rootfs;
  working_dir = clean (or_root config.working_dir);
}

-- The arguments of the child that Run starts, behind the agent's own name for it.
abbrev pub child_arguments : Config → List Bytes → WorkloadNetwork → List Bytes
child_arguments config command network =
    tail (init_arguments (checked_config config) (clean config.rootfs) command network)

-- For a configuration that passes Run's checks, with a UID and a GID of 32 bits: the child to which Run
-- passes its arguments, on a system that lets it go on, succeeds, and its last call is the start of the
-- program that the command names, with the command's arguments, in a process that is ready for it.
pub init_process-child_arguments :
    (os : Os) (child : IsWillingChild os) (config : Config) (executable : Bytes)
    (arguments : List Bytes) (network : WorkloadNetwork)
    → IsRunnable config
    → config.uid ≤ max_u32
    → config.gid ≤ max_u32
    → Total
        (λ _ u.
          IsStarted
            (child_arguments config (executable ∷ arguments) network)
            (child.program executable)
            (executable ∷ arguments)
            u)
        (init_process os (child_arguments config (executable ∷ arguments) network) [])
init_process-child_arguments os child config executable arguments network runnable fu fg =
    init_process-IsStarted os child _
      (read_back (checked_config config) (clean config.rootfs) executable arguments network)
      (parse_arguments-init_arguments (checked_config config) (clean config.rootfs) executable
        arguments network runnable.hostname (clean-clean config.rootfs)
        (clean-clean (or_root config.working_dir)) runnable.working_dir fu fg)
      runnable.identity runnable.absolute runnable.not_root
