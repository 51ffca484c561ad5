-- ===== src/Runtime/Run/Reaping.antt =====
-- Run waits for the child that it starts.
use kernlet.Common.{ℕ, List, Bytes, Error, Result, ok, err, arith}
use kernlet.Sys.{
  Call, Trace, Os, Io, act, number, attempt, ignore, within_io, pure, ◌>>=◌, start_process,
  wait_process,
}
use kernlet.Sys.Only.{Extends-refl, Makes, Makes-weaken, makes_rules}
use kernlet.Sys.Cases.{within_after, number_cases, act_cases}
use kernlet.Runtime.Config.{Config}
use kernlet.Runtime.Network.{WorkloadNetwork}
use kernlet.Runtime.Link.{move_network_to_process}
use kernlet.Runtime.Run.Whole.{Holds, with_network-Moves, run-Moves}
use kernlet.Runtime.Run.Parts.{Linking, Limiting, Checking}
use kernlet.Sys.Moves.{Moves, Moves-bind, Moves-deferred}
use kernlet.Runtime.Run.Children.{
  Idle, started, waits, is_start, is_wait, Counts, Counts-trans, Counts-idle, Counts-then, idle,
  Reaped, Reaps, Reaps-Idle, Reaped-Chains,
}
use kernlet.Runtime.Run.{
  Outcome, error_of, current_output, fail_with, after_close, give_up, after_signal, after_move,
  after_start, run_child, with_pipe, with_network, run,
}

Linking-Idle : (c : Call) → Linking c → Idle c
Linking-Idle wait_process h = absurd h
Linking-Idle (start_process arguments environment flags cgroup) h = absurd h
Linking-Idle _ h = tt

Limiting-Idle : (c : Call) → Limiting c → Idle c
Limiting-Idle wait_process h = absurd h
Limiting-Idle (start_process arguments environment flags cgroup) h = absurd h
Limiting-Idle _ h = tt

Checking-Idle : (c : Call) → Checking c → Idle c
Checking-Idle wait_process h = absurd h
Checking-Idle (start_process arguments environment flags cgroup) h = absurd h
Checking-Idle _ h = tt

module _ {A B : Type 0} (starts waited : ℕ) where
  attempt_first :
      (m : Io A) (f : Result A → Io B) (t : Trace)
      → Makes Idle m
      → ((r : Result A) (u : Trace) → Counts starts waited u (f r u).1)
      → Counts starts waited t ((attempt m >>= f) t).1
  unfolding ◌>>=◌
  attempt_first m f t h k = Counts-idle starts waited (idle m t h) (k (m t).0 (m t).1)

  ignore_first :
      (m : Io A) (f : Unit {0} → Io B) (t : Trace)
      → Makes Idle m
      → ((u : Trace) → Counts starts waited u (f tt u).1)
      → Counts starts waited t ((ignore m >>= f) t).1
  unfolding ◌>>=◌
  ignore_first m f t h k = Counts-idle starts waited (idle m t h) (k (m t).1)

module _ (os : Os) where
  current_output-Idle : Makes Idle (current_output os)
  unfolding current_output
  current_output-Idle = record { at = λ t. Extends-refl t }

  fail_with-Idle : (e : Error) → Makes Idle (fail_with os e)
  unfolding fail_with
  fail_with-Idle e = search (makes_rules, current_output-Idle) depth 8

  wait_one : (t : Trace) → Counts 0 1 t (act os wait_process t).1
  unfolding started waits is_wait
  wait_one t =
      act_cases os wait_process t (λ r. Counts 0 1 t r.1)
        (record { more_started = ground arith; more_waits = ground arith })
        λ e. record { more_started = ground arith; more_waits = ground arith }

  wait_and_fail :
      (e : Error) (t : Trace)
      → Counts 0 1 t ((ignore (act os wait_process) >>= λ _. fail_with os e) t).1
  unfolding ◌>>=◌
  wait_and_fail e t =
      Counts-then 0 1 (wait_one t)
        (idle (fail_with os e) (act os wait_process t).1 (fail_with-Idle e))

  run_wait : (t : Trace) → Counts 0 1 t (within_io "run" (act os wait_process) t).1
  run_wait t =
      within_after (λ r. Counts 0 1 t r.1) (λ r. Counts 0 1 t r.1) "run" (act os wait_process) t
        (wait_one t) (λ _ u h. h) λ e u h. h

  outcome-Idle :
      (waited : Result (Unit {0}))
      → Makes {A = Outcome} Idle (
          current_output os >>= λ output.
          pure (record { output = output; error = error_of waited }))
  outcome-Idle waited = search (makes_rules, current_output-Idle) depth 8

  after_close-Counts :
      (closed : Result (Unit {0})) (t : Trace) → Counts 0 1 t (after_close os closed t).1
  unfolding after_close ◌>>=◌
  after_close-Counts (err e) t = wait_and_fail e t
  after_close-Counts (ok _) t =
      let r = within_io "run" (act os wait_process) t in
      Counts-then 0 1 (run_wait t) (idle _ r.1 (outcome-Idle r.0))

  give_up-Counts : (e : Error) (t : Trace) → Counts 0 1 t (give_up os e t).1
  unfolding give_up
  give_up-Counts e t = ignore_first 0 1 _ _ t (search makes_rules depth 4) (wait_and_fail e)

  after_signal-Counts :
      (signalled : Result (Unit {0})) (t : Trace) → Counts 0 1 t (after_signal os signalled t).1
  unfolding after_signal
  after_signal-Counts (err e) t = give_up-Counts e t
  after_signal-Counts (ok _) t =
      attempt_first 0 1 _ _ t (search makes_rules depth 4) after_close-Counts

  after_move-Counts :
      (moved : Result (Unit {0})) (t : Trace) → Counts 0 1 t (after_move os moved t).1
  unfolding after_move
  after_move-Counts (err e) t = give_up-Counts e t
  after_move-Counts (ok _) t =
      attempt_first 0 1 _ _ t (search makes_rules depth 4) after_signal-Counts

  move_network-Idle :
      (network : WorkloadNetwork) (pid : ℕ) → Makes Idle (move_network_to_process os network pid)
  unfolding move_network_to_process
  move_network-Idle network pid = search makes_rules depth 12

  -- The child runs, and is waited for.
  after_start-Counts :
      (network : WorkloadNetwork) (pid : ℕ) (t : Trace)
      → Counts 0 1 t (after_start os network (ok pid) t).1
  unfolding after_start
  after_start-Counts network pid t =
      ignore_first 0 1 _ _ t (search makes_rules depth 4)
        λ u. attempt_first 0 1 _ _ u (move_network-Idle network pid) after_move-Counts

  -- After a success of Start there is a child, after a failure there is none.
  abbrev Started : Trace → Result ℕ × Trace → Type 0
  Started t (ok pid, u) = Counts 1 0 t u
  Started t (err e, u) = Counts 0 0 t u

  start-Started :
      (arguments environment : List Bytes) (flags cgroup : ℕ) (t : Trace)
      → Started t
          (within_io "start" (number os (start_process arguments environment flags cgroup)) t)
  unfolding started waits is_start is_wait
  start-Started arguments environment flags cgroup t =
      within_after (Started t) (Started t) "start" _ t
        (number_cases os (start_process arguments environment flags cgroup) t (Started t)
          (λ pid. record { more_started = ground arith; more_waits = ground arith })
          λ e. record { more_started = ground arith; more_waits = ground arith })
        (λ pid u h. h) λ e u h. h

  after_start-Reaped :
      (network : WorkloadNetwork) (t : Trace) (r : Result ℕ × Trace)
      → Started t r
      → Reaped t (after_start os network r.0 r.1).1
  unfolding after_start
  after_start-Reaped network t (ok pid, u) h = record {
    children = 1;
    counts = Counts-trans 1 0 0 1 h (after_start-Counts network pid u);
  }
  after_start-Reaped network t (err e, u) h = record {
    children = 0;
    counts = Counts-then 0 0 h (idle (fail_with os e) u (fail_with-Idle e));
  }

  run_child-Reaps :
      (config : Config) (network : WorkloadNetwork) (cgroup : ℕ)
      → Reaps (run_child os config network cgroup)
  unfolding run_child ◌>>=◌
  run_child-Reaps config network cgroup = record {
    at = λ t. after_start-Reaped network t _ (start-Started _ _ _ cgroup t);
  }

  with_pipe-Reaps :
      (config : Config) (network : WorkloadNetwork) (cgroup : ℕ)
      → Reaps (with_pipe os config network cgroup)
  unfolding with_pipe
  with_pipe-Reaps config network cgroup =
      Moves-bind Reaped-Chains _ _ (Reaps-Idle _ (search makes_rules depth 4)) λ _.
        Moves-deferred Reaped-Chains _ _
          (Moves-deferred Reaped-Chains _ _ (run_child-Reaps config network cgroup)
            (Reaps-Idle _ (search makes_rules depth 4)))
          (Reaps-Idle _ (search makes_rules depth 4))

  Reaps-Holds : Holds Reaped
  Reaps-Holds = record {
    chains = Reaped-Chains;
    checks = λ m h. Reaps-Idle m (Makes-weaken Checking-Idle m h);
    limits = λ m h. Reaps-Idle m (Makes-weaken Limiting-Idle m h);
  }

  with_network-Reaps :
      (sequence : ℕ) (config : Config) (cgroup : ℕ)
      → Moves Reaped (with_network os sequence config cgroup)
  with_network-Reaps =
      with_network-Moves os Reaped Reaps-Holds (λ m h. Reaps-Idle m (Makes-weaken Linking-Idle m h))
        with_pipe-Reaps

-- Whatever the system answers, and whether Run succeeds or fails at any point, it makes as many calls of
-- Wait as it has started children.
pub run-Reaps :
    (os : Os) (order : List (Bytes × Bytes) → List (Bytes × Bytes)) (sequence : ℕ) (config : Config)
    → Reaps (run os order sequence config)
run-Reaps os order sequence config =
    run-Moves os Reaped (Reaps-Holds os) (with_network-Reaps os) order sequence config
