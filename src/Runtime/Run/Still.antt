-- ===== src/Runtime/Run/Still.antt =====
-- Between the creation of its cgroup and its cleanup, a run creates no directory and removes none.
use kernlet.Common.{ℕ, String}
use kernlet.Sys.{Call, Os, Io, mkdir_temp, remove, remove_all, write_connection}
use kernlet.Sys.Only.{Makes, makes_rules, Makes-weaken}
use kernlet.Runtime.Config.{Config, validate_rootfs}
use kernlet.Runtime.Network.{WorkloadNetwork}
use kernlet.Runtime.Link.{create_guest_network, remove_guest_network}
use kernlet.Runtime.Run.{Outcome, with_cleanup, with_pipe, with_network, check_run}
use kernlet.Runtime.Run.Parts.{
  Piped, Linking, with_pipe-Piped, create_guest_network-Linking, remove_guest_network-Linking,
}
use kernlet.Runtime.Run.Tracking.{Still}

Piped-Still : (c : Call) → Piped c → Still c
Piped-Still (mkdir_temp parent pattern) h = absurd h
Piped-Still (remove path) h = absurd h
Piped-Still (remove_all path) h = absurd h
Piped-Still (write_connection fd text) h = absurd h
Piped-Still _ h = tt

Linking-Still : (c : Call) → Linking c → Still c
Linking-Still (mkdir_temp parent pattern) h = absurd h
Linking-Still (remove path) h = absurd h
Linking-Still (remove_all path) h = absurd h
Linking-Still (write_connection fd text) h = absurd h
Linking-Still _ h = tt

module _ (os : Os) where
  with_pipe-Still :
      (config : Config) (network : WorkloadNetwork) (cgroup : ℕ)
      → Makes Still (with_pipe os config network cgroup)
  with_pipe-Still config network cgroup =
      Makes-weaken Piped-Still _ (with_pipe-Piped os config network cgroup)

  create_guest_network-Still :
      (network : WorkloadNetwork) → Makes Still (create_guest_network os network)
  create_guest_network-Still network =
      Makes-weaken Linking-Still _ (create_guest_network-Linking os network)

  remove_guest_network-Still :
      (network : WorkloadNetwork) → Makes Still (remove_guest_network os network)
  remove_guest_network-Still network =
      Makes-weaken Linking-Still _ (remove_guest_network-Linking os network)

  with_cleanup-Still :
      (context : String) (body : Io Outcome) (cleanup : Io (Unit {0}))
      → Makes Still body
      → Makes Still cleanup
      → Makes Still (with_cleanup os context body cleanup)
  unfolding with_cleanup
  with_cleanup-Still context body cleanup hb hc = search makes_rules depth 12

  pub with_network-Still :
      (sequence : ℕ) (config : Config) (cgroup : ℕ)
      → Makes Still (with_network os sequence config cgroup)
  unfolding with_network
  with_network-Still sequence config cgroup =
      search
        (
          makes_rules, create_guest_network-Still, with_cleanup-Still, with_pipe-Still,
          remove_guest_network-Still,
        )
        depth 12

  pub check_run-Still : (config : Config) → Makes Still (check_run os config)
  unfolding check_run validate_rootfs
  check_run-Still config = search makes_rules depth 30
