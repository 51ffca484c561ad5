-- ===== src/Runtime/Run.antt =====
-- Run: a workload from its configuration to its output.
pub mod Tracking
pub mod Parts
pub mod Whole
pub mod Still
pub mod Cgroups
pub mod Untouched
pub mod Children
pub mod Reaping
pub mod Links
pub mod Unlinking
pub mod Complete
pub mod Starting
pub mod Reports
pub mod Signals
pub mod Releases
mod Tests
use kernlet.Common.{
  ℕ, ◌+◌, String, List, [], ◌∷◌, Bytes, codes, Option, none, some, not, Error, wrap,
  join as join_errors, Result, ok, err, fail_if, within,
}
use kernlet.FilePath.{clean, is_abs}
use kernlet.Sys.{
  Os, Io, act, number, pure, lift, within_io, ignore, attempt, deferred, ◌>>=◌, ◌>>◌, make_pipe,
  close_reader, close_writer, write_ready, start_process, wait_process,
}
use kernlet.Oci.Configuration.{or_root, is_empty}
use kernlet.Runtime.Config.{
  Config, validate_limits, validate_hostname, validate_identity, validate_rootfs,
}
use kernlet.Runtime.Network.{WorkloadNetwork, allocate_workload_network}
use kernlet.Runtime.Link.{
  create_guest_network, move_network_to_process, remove_guest_network, workload_environment,
}
use kernlet.Runtime.Cgroup.{limit_values, create_cgroup, close_and_remove_cgroup}
use kernlet.Runtime.Arguments.{init_arguments}

-- CLONE_NEWUTS | CLONE_NEWPID | CLONE_NEWNS | CLONE_NEWNET
abbrev pub clone_flags : ℕ
clone_flags = 0x0400_0000 + 0x2000_0000 + 0x0002_0000 + 0x4000_0000

-- The two results `output` and `resultErr`.
pub record Outcome : Type 0 where
  pub output : Bytes
  pub error : Option Error

-- An error before the child has started comes with no output.
abbrev pub outcome_of : Result Outcome → Outcome
outcome_of (ok outcome) = outcome
outcome_of (err e) = record { output = []; error = some e }

abbrev pub error_of : Result (Unit {0}) → Option Error
error_of (ok _) = none
error_of (err e) = some e

-- errors.Join(resultErr, err), where `resultErr` may be nil.
abbrev pub join_error : Option Error → Error → Error
join_error none e = e
join_error (some first) e = join_errors first e

-- `if err := cleanup(); err != nil { resultErr = errors.Join(resultErr, ...) }`
abbrev pub add_error : String → Outcome → Result (Unit {0}) → Outcome
add_error context outcome (ok _) = outcome
add_error context outcome (err e) = record {
  output = outcome.output;
  error = some (join_error outcome.error (wrap context e));
}

module _ (os : Os) where
  -- A deferred function whose error is joined with the result.
  pub with_cleanup : String → Io Outcome → Io (Unit {0}) → Io Outcome
  with_cleanup context body cleanup = do
    result ← attempt body
    cleaned ← attempt cleanup
    pure (add_error context (outcome_of result) cleaned)

  -- outputBuffer.String()
  current_output : Io Bytes
  current_output t = (ok (os.captured t), t)

  fail_with : Error → Io Outcome
  fail_with e = do output ← current_output; pure (record { output = output; error = some e })

  after_close : Result (Unit {0}) → Io Outcome
  after_close (err e) = do ignore (act os wait_process); fail_with e
  after_close (ok _) = do
    waited ← attempt (within_io "run" (act os wait_process))
    output ← current_output
    pure (record { output = output; error = error_of waited })

  give_up : Error → Io Outcome
  give_up e = do ignore (act os close_writer); ignore (act os wait_process); fail_with e

  after_signal : Result (Unit {0}) → Io Outcome
  after_signal (err e) = give_up e
  after_signal (ok _) = do
    closed ← attempt (within_io "close network readiness pipe" (act os close_writer))
    after_close closed

  after_move : Result (Unit {0}) → Io Outcome
  after_move (err e) = give_up e
  after_move (ok _) = do
    signalled ← attempt (within_io "signal network readiness" (act os write_ready))
    after_signal signalled

  -- The value is the process id of the child.
  after_start : WorkloadNetwork → Result ℕ → Io Outcome
  after_start network (err e) = fail_with e
  after_start network (ok pid) = do
    ignore (act os close_reader)
    moved ← attempt (move_network_to_process os network pid)
    after_move moved

  -- From exec.Command on.
  run_child : Config → WorkloadNetwork → ℕ → Io Outcome
  run_child config network cgroup = do
    started ← attempt (
        within_io "start" (
          number os (
            start_process (init_arguments config config.rootfs config.command network)
              (workload_environment config.environment network.gateway) clone_flags cgroup)))
    after_start network started

  -- The two deferred `Close` calls run in the reverse order.
  pub with_pipe : Config → WorkloadNetwork → ℕ → Io Outcome
  with_pipe config network cgroup = do
    within_io "create network readiness pipe" (act os make_pipe)
    deferred (deferred (run_child config network cgroup) (act os close_writer))
        (act os close_reader)

  -- `sequence` is the counter of networks at the allocation.
  pub with_network : ℕ → Config → ℕ → Io Outcome
  with_network sequence config cgroup = do
    network ← lift ((allocate_workload_network sequence).0)
    create_guest_network os network
    with_cleanup "clean up workload network" (with_pipe config network cgroup)
        (remove_guest_network os network)

  -- The checks, in the order of the code; the result is the configuration that Run goes on with.
  pub check_run : Config → Io Config
  check_run config = do
    lift (fail_if (is_empty config.command) "no command provided")
    lift (within "invalid hostname" (validate_hostname config.hostname))
    within_io "invalid rootfs" (validate_rootfs os (clean config.rootfs))
    lift (within "invalid identity" (validate_identity config.uid config.gid))
    lift (
        fail_if (not (is_abs (clean (or_root config.working_dir))))
          "working directory must be absolute")
    lift (within "invalid resource limits" (validate_limits config.limits))
    pure (record config {
      rootfs = clean config.rootfs;
      working_dir = clean (or_root config.working_dir);
    })

  run_in_cgroup : ℕ → Config → Bytes × ℕ → Io Outcome
  run_in_cgroup sequence config (path, cgroup) =
      with_cleanup "clean up workload cgroup" (with_network sequence config cgroup)
        (close_and_remove_cgroup os path cgroup)

  -- Go visits a map in any order: `order` is the order in which this run visits the limits.
  run_checked : (List (Bytes × Bytes) → List (Bytes × Bytes)) → ℕ → Config → Io Outcome
  run_checked order sequence config = do
    cgroup ← create_cgroup os (order (limit_values config.limits))
    run_in_cgroup sequence config cgroup

  pub run : (List (Bytes × Bytes) → List (Bytes × Bytes)) → ℕ → Config → Io Outcome
  run order sequence config = do checked ← check_run config; run_checked order sequence checked
