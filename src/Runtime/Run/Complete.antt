-- ===== src/Runtime/Run/Complete.antt =====
-- Run succeeds when the system does.
use kernlet.Common.{
  ℕ, String, List, ◌∷◌, Bytes, codes, true, false, none, Result, ok, err, equal, ◌≡◌, ap,
}
use kernlet.FilePath.{clean, is_abs}
use kernlet.Oci.Configuration.{or_root, is_empty}
use kernlet.Sys.{
  done, Trace, Os, Io, act, pure, attempt, ignore, deferred, within_io, ◌>>=◌, wait_process,
  close_writer, close_reader, write_ready, make_pipe,
}
use kernlet.Sys.Works.{
  Total, Any, Works, IsWilling, HasFiles, Total-bind, Total-within, Total-attempt, Total-deferred,
  Total-act, Works-within_io, Works-ignore, Works-act, Works-number,
}
use kernlet.Runtime.Config.{
  Config, validate_limits, validate_hostname, validate_identity, validate_rootfs,
}
use kernlet.Runtime.Network.{WorkloadNetwork, allocate_workload_network}
use kernlet.Runtime.Link.{create_guest_network, remove_guest_network}
use kernlet.Runtime.Cgroup.{limit_values, create_cgroup, close_and_remove_cgroup}
use kernlet.Runtime.Cgroup.Willing.{create_cgroup-Works, close_and_remove-Works}
use kernlet.Runtime.Link.Willing.{
  create_guest_network-Works, move_network-Works, remove_guest_network-Works,
}
use kernlet.Runtime.Run.{
  Outcome, outcome_of, error_of, add_error, with_cleanup, current_output, after_close, after_signal,
  after_move, after_start, run_child, with_pipe, with_network, check_run, run_in_cgroup,
  run_checked, run,
}

-- The configuration passes every check.
pub record IsRunnable (config : Config) : Type 0 where
  pub command : is_empty config.command ≡ false
  pub hostname : validate_hostname config.hostname ≡ ok tt
  pub absolute : is_abs (clean config.rootfs) ≡ true
  pub not_root : equal (clean config.rootfs) (codes "/") ≡ false
  pub identity : validate_identity config.uid config.gid ≡ ok tt
  pub working_dir : is_abs (clean (or_root config.working_dir)) ≡ true
  pub limits : validate_limits config.limits ≡ ok tt

-- No error, and the output of the child, as it was when the child was waited for.
pub record IsFinished (os : Os) (outcome : Outcome) : Type 0 where
  pub before : Trace
  pub whole : outcome ≡ record { output = os.captured (done wait_process ∷ before); error = none }

module _ (os : Os) where
  abbrev Finishes : Result Outcome × Trace → Type 0
  Finishes r = Total (λ outcome u. IsFinished os outcome) r

  module _ {A : Type 0} (f : Result A → Io Outcome)
      (rest : (a : A) (u : Trace) → Finishes (f (ok a) u)) where
    succeeded : (r : Result A) (u : Trace) → Total Any (r, u) → Finishes (f r u)
    succeeded (ok a) u h = rest a u
    succeeded (err e) u h = absurd h

    attempted : (m : Io A) (t : Trace) → Works m → Finishes ((attempt m >>= f) t)
    attempted m t h =
        Total-bind (λ r u. Total Any (r, u)) (λ outcome u. IsFinished os outcome) (attempt m) f t
          (Total-attempt Any m t (h.at t)) succeeded

  waited_lem :
      (t : Trace) (r : Result (Unit {0})) (u : Trace)
      → Total (λ _ v. v ≡ done wait_process ∷ t) (r, u)
      → Finishes (
          (current_output os >>= λ output. pure (record { output = output; error = error_of r })) u)
  unfolding current_output ◌>>=◌
  waited_lem t (ok _) u h = record {
    before = t;
    whole = ap (λ v. record { output = os.captured v; error = none }) h;
  }
  waited_lem t (err e) u h = absurd h

  -- A deferred function that succeeds changes nothing of the outcome.
  cleaned_lem :
      (context : String) (body : Io Outcome) (cleanup : Io (Unit {0})) (t : Trace)
      → Finishes (body t)
      → Works cleanup
      → Finishes (with_cleanup os context body cleanup t)
  unfolding with_cleanup
  cleaned_lem context body cleanup t h k =
      Total-bind (λ r u. Total (λ outcome v. IsFinished os outcome) (r, u))
        (λ outcome u. IsFinished os outcome) (attempt body) _ t
        (Total-attempt (λ outcome v. IsFinished os outcome) body t h)
        λ result u finished.
          attempted (λ cleaned. pure (add_error context (outcome_of result) cleaned))
            (λ a v. pure_finished result u finished a v) cleanup u k
    where
      pure_finished :
          (result : Result Outcome) (u : Trace)
          → Total (λ outcome v. IsFinished os outcome) (result, u)
          → (a : Unit {0}) (v : Trace)
          → Finishes (pure (add_error context (outcome_of result) (ok a)) v)
      pure_finished (ok outcome) u h a v = unfold ◌>>=◌ in h
      pure_finished (err e) u h a v = absurd h

module _ (os : Os) (willing : IsWilling os) where
  after_close-Finishes : (t : Trace) → Finishes os (after_close os (ok tt) t)
  unfolding after_close
  after_close-Finishes t =
      Total-bind (λ r u. Total (λ _ v. v ≡ done wait_process ∷ t) (r, u))
        (λ outcome u. IsFinished os outcome) (attempt (within_io "run" (act os wait_process))) _ t
        (Total-attempt (λ _ v. v ≡ done wait_process ∷ t) (within_io "run" (act os wait_process)) t
          (Total-within (λ _ v. v ≡ done wait_process ∷ t) "run" (act os wait_process) t
            (Total-act os willing wait_process t)))
        (waited_lem os t)

  after_signal-Finishes : (t : Trace) → Finishes os (after_signal os (ok tt) t)
  unfolding after_signal
  after_signal-Finishes t =
      attempted os (after_close os) (λ _. after_close-Finishes) _ t
        (Works-within_io "close network readiness pipe" _ (Works-act os willing close_writer))

  after_move-Finishes : (t : Trace) → Finishes os (after_move os (ok tt) t)
  unfolding after_move
  after_move-Finishes t =
      attempted os (after_signal os) (λ _. after_signal-Finishes) _ t
        (Works-within_io "signal network readiness" _ (Works-act os willing write_ready))

  after_start-Finishes :
      (network : WorkloadNetwork) (pid : ℕ) (t : Trace)
      → Finishes os (after_start os network (ok pid) t)
  unfolding after_start
  after_start-Finishes network pid t =
      Total-bind Any (λ outcome u. IsFinished os outcome) (ignore (act os close_reader)) _ t
        ((Works-ignore (act os close_reader)).at t)
        λ _ u _.
          attempted os (after_move os) (λ _. after_move-Finishes) _ u
            (move_network-Works os willing network pid)

  run_child-Finishes :
      (config : Config) (network : WorkloadNetwork) (cgroup : ℕ) (t : Trace)
      → Finishes os (run_child os config network cgroup t)
  unfolding run_child
  run_child-Finishes config network cgroup t =
      attempted os (after_start os network) (after_start-Finishes network) _ t
        (Works-within_io "start" _ (Works-number os willing _))

  with_pipe-Finishes :
      (config : Config) (network : WorkloadNetwork) (cgroup : ℕ) (t : Trace)
      → Finishes os (with_pipe os config network cgroup t)
  unfolding with_pipe
  with_pipe-Finishes config network cgroup t =
      Total-bind Any (λ outcome u. IsFinished os outcome)
        (within_io "create network readiness pipe" (act os make_pipe)) _ t
        ((Works-within_io "create network readiness pipe" _ (Works-act os willing make_pipe)).at t)
        λ _ u _.
          Total-deferred (IsFinished os)
            (deferred (run_child os config network cgroup) (act os close_writer))
            (act os close_reader) u
            (Total-deferred (IsFinished os) (run_child os config network cgroup)
              (act os close_writer) u (run_child-Finishes config network cgroup u))

  with_network-Finishes :
      (sequence : ℕ) (config : Config) (network : WorkloadNetwork) (cgroup : ℕ) (t : Trace)
      → (allocate_workload_network sequence).0 ≡ ok network
      → Finishes os (with_network os sequence config cgroup t)
  unfolding with_network ◌>>=◌
  with_network-Finishes sequence config network cgroup t allocated = rw allocated (
      Total-bind Any (λ outcome u. IsFinished os outcome) (create_guest_network os network) _ t
        ((create_guest_network-Works os willing network).at t)
        λ _ u _.
          cleaned_lem os "clean up workload network" (with_pipe os config network cgroup)
            (remove_guest_network os network) u (with_pipe-Finishes config network cgroup u)
            (remove_guest_network-Works os willing network))

  run_in_cgroup-Finishes :
      (sequence : ℕ) (config : Config) (network : WorkloadNetwork) (cgroup : Bytes × ℕ) (t : Trace)
      → (allocate_workload_network sequence).0 ≡ ok network
      → Finishes os (run_in_cgroup os sequence config cgroup t)
  unfolding run_in_cgroup
  run_in_cgroup-Finishes sequence config network (path, fd) t allocated =
      cleaned_lem os "clean up workload cgroup" (with_network os sequence config fd)
        (close_and_remove_cgroup os path fd) t
        (with_network-Finishes sequence config network fd t allocated)
        (close_and_remove-Works os willing path fd)

module _ (os : Os) (willing : IsWilling os) where
  check_run-Works : (config : Config) → IsRunnable config → Works (check_run os config)
  unfolding check_run validate_rootfs ◌>>=◌
  check_run-Works config runnable = record {
    at = λ t.
        simp
          (
            runnable.command, runnable.hostname, runnable.absolute, runnable.not_root,
            runnable.identity, runnable.working_dir, runnable.limits, willing.directories,
          )
          tt;
  }

module _ (os : Os) (willing : IsWilling os) (files : HasFiles os) where
  run_checked-Finishes :
      (order : List (Bytes × Bytes) → List (Bytes × Bytes)) (sequence : ℕ) (config : Config)
      (network : WorkloadNetwork) (t : Trace)
      → (allocate_workload_network sequence).0 ≡ ok network
      → Finishes os (run_checked os order sequence config t)
  unfolding run_checked
  run_checked-Finishes order sequence config network t allocated =
      Total-bind Any (λ outcome u. IsFinished os outcome)
        (create_cgroup os (order (limit_values config.limits))) _ t
        ((create_cgroup-Works os willing files (order (limit_values config.limits))).at t)
        λ cgroup u _. run_in_cgroup-Finishes os willing sequence config network cgroup u allocated

-- A configuration that passes every check is run, if there is a network left and the system's calls
-- succeed and its files hold what is written: Run returns no error, and the output that the child had
-- written when Wait returned.
pub run-IsFinished :
    (os : Os) (order : List (Bytes × Bytes) → List (Bytes × Bytes)) (sequence : ℕ) (config : Config)
    (network : WorkloadNetwork) (t : Trace)
    → IsWilling os
    → HasFiles os
    → IsRunnable config
    → (allocate_workload_network sequence).0 ≡ ok network
    → Total (λ outcome u. IsFinished os outcome) (run os order sequence config t)
unfolding run
run-IsFinished os order sequence config network t willing files runnable allocated =
    Total-bind Any (λ outcome u. IsFinished os outcome) (check_run os config)
      (run_checked os order sequence) t ((check_run-Works os willing config runnable).at t)
      λ checked u _.
        run_checked-Finishes os willing files order sequence checked network u allocated
