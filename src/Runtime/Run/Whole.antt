-- ===== src/Runtime/Run/Whole.antt =====
-- What a run keeps, from what its parts keep.
use kernlet.Common.{ℕ, String, List, Bytes}
use kernlet.Sys.{Trace, Os, Io}
use kernlet.Sys.Only.{Makes, makes_rules}
use kernlet.Sys.Moves.{Moves, Chains, Moves-bind, Moves-attempt}
use kernlet.Runtime.Config.{Config}
use kernlet.Runtime.Network.{WorkloadNetwork}
use kernlet.Runtime.Run.{
  Outcome, with_cleanup, with_pipe, with_network, run_in_cgroup, run_checked, run,
}
use kernlet.Runtime.Run.Parts.{
  Linking, Limiting, Checking, create_cgroup-Limiting, close_and_remove-Limiting,
  check_run-Checking, create_guest_network-Linking, remove_guest_network-Linking,
}

-- A relation that holds across the checks and across the calls for the cgroup.
pub record Holds (R : Trace → Trace → Type 0) : Type 1 where
  pub chains : Chains R
  pub checks : {A : Type 0} (m : Io A) → Makes Checking m → Moves R m
  pub limits : {A : Type 0} (m : Io A) → Makes Limiting m → Moves R m

module _ (os : Os) (R : Trace → Trace → Type 0) (holds : Holds R) where
  with_cleanup-Moves :
      (context : String) (body : Io Outcome) (cleanup : Io (Unit {0}))
      → Moves R body
      → Moves R cleanup
      → Moves R (with_cleanup os context body cleanup)
  unfolding with_cleanup
  with_cleanup-Moves context body cleanup hb hc =
      Moves-bind holds.chains _ _ (Moves-attempt body hb) λ result.
        Moves-bind holds.chains _ _ (Moves-attempt cleanup hc)
          λ cleaned. holds.checks _ (search makes_rules)

  -- With the calls for the link, and those for the child.
  pub with_network-Moves :
      ((m : Io (Unit {0})) → Makes Linking m → Moves R m)
      → ((config : Config) (network : WorkloadNetwork) (cgroup : ℕ)
          → Moves R (with_pipe os config network cgroup))
      → (sequence : ℕ) (config : Config) (cgroup : ℕ)
      → Moves R (with_network os sequence config cgroup)
  unfolding with_network
  with_network-Moves links pipes sequence config cgroup =
      Moves-bind holds.chains _ _ (holds.checks _ (search makes_rules)) λ network.
        Moves-bind holds.chains _ _ (links _ (create_guest_network-Linking os network)) λ _.
          with_cleanup-Moves _ _ _ (pipes config network cgroup)
            (links _ (remove_guest_network-Linking os network))

module _ (os : Os) (R : Trace → Trace → Type 0) (holds : Holds R)
    (networks : (sequence : ℕ) (config : Config) (cgroup : ℕ)
      → Moves R (with_network os sequence config cgroup)) where
  run_in_cgroup-Moves :
      (sequence : ℕ) (config : Config) (cgroup : Bytes × ℕ)
      → Moves R (run_in_cgroup os sequence config cgroup)
  unfolding run_in_cgroup
  run_in_cgroup-Moves sequence config (path, fd) =
      with_cleanup-Moves os R holds _ _ _ (networks sequence config fd)
        (holds.limits _ (close_and_remove-Limiting os path fd))

  run_checked-Moves :
      (order : List (Bytes × Bytes) → List (Bytes × Bytes)) (sequence : ℕ) (config : Config)
      → Moves R (run_checked os order sequence config)
  unfolding run_checked
  run_checked-Moves order sequence config =
      Moves-bind holds.chains _ _ (holds.limits _ (create_cgroup-Limiting os _))
        (run_in_cgroup-Moves sequence config)

  pub run-Moves :
      (order : List (Bytes × Bytes) → List (Bytes × Bytes)) (sequence : ℕ) (config : Config)
      → Moves R (run os order sequence config)
  unfolding run
  run-Moves order sequence config =
      Moves-bind holds.chains _ _ (holds.checks _ (check_run-Checking os config))
        (run_checked-Moves order sequence)
