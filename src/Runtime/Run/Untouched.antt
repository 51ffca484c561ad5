-- ===== src/Runtime/Run/Untouched.antt =====
-- A run creates and removes no bundle directory, and writes to no connection.
use kernlet.Common.{ℕ, List, Bytes, equal, refl}
use kernlet.Sys.{Call, Os, mkdir_temp, remove_all, write_connection}
use kernlet.Sys.Only.{Makes, Makes-weaken, makes_rules}
use kernlet.Oci.Prepare.Pending.{Quiet}
use kernlet.Oci.Prepare.Rootfs.{Silent}
use kernlet.Runtime.Config.{Config}
use kernlet.Runtime.Cgroup.{create_cgroup, close_and_remove_cgroup}
use kernlet.Runtime.Run.{with_cleanup, with_network, run_in_cgroup, run_checked, check_run, run}
use kernlet.Runtime.Run.Tracking.{Still}
use kernlet.Runtime.Run.Parts.{Limiting, create_cgroup-Limiting}
use kernlet.Runtime.Run.Still.{with_network-Still, check_run-Still}

Still-Quiet : (c : Call) → Still c → Quiet c
Still-Quiet (mkdir_temp parent pattern) h = absurd h
Still-Quiet (remove_all path) h = absurd h
Still-Quiet _ h = tt

Limiting-Quiet : (c : Call) → Limiting c → Quiet c
unfolding equal
Limiting-Quiet (mkdir_temp parent pattern) h = rw h refl
Limiting-Quiet (remove_all path) h = absurd h
Limiting-Quiet _ h = tt

Still-Silent : (c : Call) → Still c → Silent c
Still-Silent (write_connection fd text) h = absurd h
Still-Silent _ h = tt

Limiting-Silent : (c : Call) → Limiting c → Silent c
Limiting-Silent (write_connection fd text) h = absurd h
Limiting-Silent _ h = tt

module _ (os : Os) where
  create_cgroup-Quiet : (values : List (Bytes × Bytes)) → Makes Quiet (create_cgroup os values)
  create_cgroup-Quiet values = Makes-weaken Limiting-Quiet _ (create_cgroup-Limiting os values)

  with_network-Quiet :
      (sequence : ℕ) (config : Config) (cgroup : ℕ)
      → Makes Quiet (with_network os sequence config cgroup)
  with_network-Quiet sequence config cgroup =
      Makes-weaken Still-Quiet _ (with_network-Still os sequence config cgroup)

  check_run-Quiet : (config : Config) → Makes Quiet (check_run os config)
  check_run-Quiet config = Makes-weaken Still-Quiet _ (check_run-Still os config)

  run_in_cgroup-Quiet :
      (sequence : ℕ) (config : Config) (cgroup : Bytes × ℕ)
      → Makes Quiet (run_in_cgroup os sequence config cgroup)
  unfolding run_in_cgroup with_cleanup close_and_remove_cgroup
  run_in_cgroup-Quiet sequence config (path, cgroup) =
      search (makes_rules, with_network-Quiet) depth 20

  pub run-Quiet :
      (order : List (Bytes × Bytes) → List (Bytes × Bytes)) (sequence : ℕ) (config : Config)
      → Makes Quiet (run os order sequence config)
  unfolding run run_checked
  run-Quiet order sequence config =
      search (makes_rules, check_run-Quiet, create_cgroup-Quiet, run_in_cgroup-Quiet) depth 20

  with_network-Silent :
      (sequence : ℕ) (config : Config) (cgroup : ℕ)
      → Makes Silent (with_network os sequence config cgroup)
  with_network-Silent sequence config cgroup =
      Makes-weaken Still-Silent _ (with_network-Still os sequence config cgroup)

  check_run-Silent : (config : Config) → Makes Silent (check_run os config)
  check_run-Silent config = Makes-weaken Still-Silent _ (check_run-Still os config)

  create_cgroup-Silent : (values : List (Bytes × Bytes)) → Makes Silent (create_cgroup os values)
  create_cgroup-Silent values = Makes-weaken Limiting-Silent _ (create_cgroup-Limiting os values)

  run_in_cgroup-Silent :
      (sequence : ℕ) (config : Config) (cgroup : Bytes × ℕ)
      → Makes Silent (run_in_cgroup os sequence config cgroup)
  unfolding run_in_cgroup with_cleanup close_and_remove_cgroup
  run_in_cgroup-Silent sequence config (path, cgroup) =
      search (makes_rules, with_network-Silent) depth 20

  pub run-Silent :
      (order : List (Bytes × Bytes) → List (Bytes × Bytes)) (sequence : ℕ) (config : Config)
      → Makes Silent (run os order sequence config)
  unfolding run run_checked
  run-Silent order sequence config =
      search (makes_rules, check_run-Silent, create_cgroup-Silent, run_in_cgroup-Silent) depth 20
