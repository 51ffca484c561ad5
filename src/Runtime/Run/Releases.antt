-- ===== src/Runtime/Run/Releases.antt =====
-- Run closes the pipe before it waits for its child, which may still wait at the other end.
use kernlet.Common.{ℕ, List, [], ◌∷◌, Bytes, Result, ok, err, Error, ◌≡◌, refl}
use kernlet.Sys.{
  Call, Event, Trace, Os, Io, act, attempt, ignore, within_io, pure, ◌>>=◌, close_writer,
  wait_process,
}
use kernlet.Sys.Only.{call_of, Extends-refl, Makes, Makes-weaken, makes_rules}
use kernlet.Sys.Cases.{act_cases, within_after}
use kernlet.Sys.Has.{Each, Each-Extends}
use kernlet.Sys.Moves.{Moves, Chains, Moves-bind, Moves-deferred}
use kernlet.Runtime.Config.{Config}
use kernlet.Runtime.Network.{WorkloadNetwork}
use kernlet.Runtime.Link.{move_network_to_process}
use kernlet.Runtime.Run.Whole.{Holds, with_network-Moves, run-Moves}
use kernlet.Runtime.Run.Parts.{Linking, Limiting, Checking}
use kernlet.Runtime.Run.{
  Outcome, error_of, current_output, fail_with, after_close, give_up, after_signal, after_move,
  after_start, run_child, with_pipe, run,
}

-- The latest call closed the end of the pipe for writing, or tried to.
abbrev pub IsClosed : Trace → Type 0
IsClosed [] = ⊥
IsClosed (e ∷ t) = call_of e ≡ close_writer

abbrev pub Let : Call → Trace → Type 0
Let wait_process t = IsClosed t
Let _ t = Unit

abbrev pub IsReleased : Event → Trace → Type 0
IsReleased e t = Let (call_of e) t

abbrev NoWait : Call → Type 0
NoWait wait_process = ⊥
NoWait _ = Unit

NoWait-Let : (c : Call) (t : Trace) → NoWait c → Let c t
NoWait-Let wait_process t h = absurd h
NoWait-Let _ t h = tt

abbrev Releases : Trace → Trace → Type 0
Releases t u = Each IsReleased t → Each IsReleased u

Releases-Chains : Chains Releases
Releases-Chains = record { same = λ t h. h; both = λ h k e. k (h e) }

Releases-NoWait : {A : Type 0} (m : Io A) → Makes NoWait m → Moves Releases m
Releases-NoWait m h = record {
  at = λ t.
      Each-Extends IsReleased NoWait t (m t).1 (λ e u c _. NoWait-Let (call_of e) u c) (h.at t);
}

Limiting-NoWait : (c : Call) → Limiting c → NoWait c
Limiting-NoWait wait_process h = absurd h
Limiting-NoWait _ h = tt

Linking-NoWait : (c : Call) → Linking c → NoWait c
Linking-NoWait wait_process h = absurd h
Linking-NoWait _ h = tt

Checking-NoWait : (c : Call) → Checking c → NoWait c
Checking-NoWait wait_process h = absurd h
Checking-NoWait _ h = tt

module _ (os : Os) where
  current_output-NoWait : Makes NoWait (current_output os)
  unfolding current_output
  current_output-NoWait = record { at = λ t. Extends-refl t }

  fail_with-NoWait : (e : Error) → Makes NoWait (fail_with os e)
  unfolding fail_with
  fail_with-NoWait e = search (makes_rules, current_output-NoWait) depth 8

  outcome-NoWait :
      (waited : Result (Unit {0}))
      → Makes {A = Outcome} NoWait (
          current_output os >>= λ output.
          pure (record { output = output; error = error_of waited }))
  outcome-NoWait waited = search (makes_rules, current_output-NoWait) depth 8

  wait-Each :
      (t : Trace) → IsClosed t → Each IsReleased t → Each IsReleased (act os wait_process t).1
  unfolding Each
  wait-Each t closed k =
      act_cases os wait_process t (λ r. Each IsReleased r.1) (closed, k) λ e. (closed, k)

  run_wait-Each :
      (t : Trace)
      → IsClosed t
      → Each IsReleased t
      → Each IsReleased (within_io "run" (act os wait_process) t).1
  run_wait-Each t closed k =
      within_after (λ r. Each IsReleased r.1) (λ r. Each IsReleased r.1) "run" (act os wait_process)
        t (wait-Each t closed k) (λ _ u h. h) λ e u h. h

  wait_and_fail-Each :
      (e : Error) (t : Trace)
      → IsClosed t
      → Each IsReleased t
      → Each IsReleased ((ignore (act os wait_process) >>= λ _. fail_with os e) t).1
  unfolding ◌>>=◌
  wait_and_fail-Each e t closed k =
      (Releases-NoWait _ (fail_with-NoWait e)).at _ (wait-Each t closed k)

  after_close-Each :
      (closed : Result (Unit {0})) (t : Trace)
      → IsClosed t
      → Each IsReleased t
      → Each IsReleased (after_close os closed t).1
  unfolding after_close ◌>>=◌
  after_close-Each (err e) t closed k = wait_and_fail-Each e t closed k
  after_close-Each (ok _) t closed k =
      let r = within_io "run" (act os wait_process) t in
      (Releases-NoWait _ (outcome-NoWait r.0)).at r.1 (run_wait-Each t closed k)

  give_up-Releases : (e : Error) → Moves Releases (give_up os e)
  unfolding give_up ◌>>=◌ Each
  give_up-Releases e = record {
    at = λ t k.
        act_cases os close_writer t
          (λ r. Each IsReleased ((ignore (act os wait_process) >>= λ _. fail_with os e) r.1).1)
          (wait_and_fail-Each e _ refl (tt, k)) λ x. wait_and_fail-Each e _ refl (tt, k);
  }

  close_and_wait-Releases :
      Moves Releases (
        attempt (within_io "close network readiness pipe" (act os close_writer)) >>= after_close os)
  unfolding ◌>>=◌ Each
  close_and_wait-Releases = record {
    at = λ t k.
        within_after (λ r. IsClosed r.1 × Each IsReleased r.1)
          (λ r. Each IsReleased (after_close os r.0 r.1).1) "close network readiness pipe"
          (act os close_writer) t
          (act_cases os close_writer t (λ r. IsClosed r.1 × Each IsReleased r.1) (refl, (tt, k))
            λ e. (refl, (tt, k)))
          (λ a u h. after_close-Each (ok a) u h.0 h.1) λ e u h. after_close-Each (err _) u h.0 h.1;
  }

  after_signal-Releases :
      (signalled : Result (Unit {0})) → Moves Releases (after_signal os signalled)
  unfolding after_signal
  after_signal-Releases (err e) = give_up-Releases e
  after_signal-Releases (ok _) = close_and_wait-Releases

  after_move-Releases : (moved : Result (Unit {0})) → Moves Releases (after_move os moved)
  unfolding after_move
  after_move-Releases (err e) = give_up-Releases e
  after_move-Releases (ok _) =
      Moves-bind Releases-Chains _ _ (Releases-NoWait _ (search makes_rules depth 8))
        after_signal-Releases

  move_network-NoWait :
      (network : WorkloadNetwork) (pid : ℕ) → Makes NoWait (move_network_to_process os network pid)
  unfolding move_network_to_process
  move_network-NoWait network pid = search makes_rules depth 12

  after_start-Releases :
      (network : WorkloadNetwork) (started : Result ℕ)
      → Moves Releases (after_start os network started)
  unfolding after_start
  after_start-Releases network (err e) = Releases-NoWait _ (fail_with-NoWait e)
  after_start-Releases network (ok pid) =
      Moves-bind Releases-Chains _ _ (Releases-NoWait _ (search makes_rules depth 8)) λ _.
        Moves-bind Releases-Chains _ _
          (Releases-NoWait _ (search (makes_rules, move_network-NoWait) depth 8))
          after_move-Releases

  with_pipe-Releases :
      (config : Config) (network : WorkloadNetwork) (cgroup : ℕ)
      → Moves Releases (with_pipe os config network cgroup)
  unfolding with_pipe run_child
  with_pipe-Releases config network cgroup =
      Moves-bind Releases-Chains _ _ (Releases-NoWait _ (search makes_rules depth 4)) λ _.
        Moves-deferred Releases-Chains _ _
          (Moves-deferred Releases-Chains _ _
            (Moves-bind Releases-Chains _ _ (Releases-NoWait _ (search makes_rules depth 8))
              (after_start-Releases network))
            (Releases-NoWait _ (search makes_rules depth 4)))
          (Releases-NoWait _ (search makes_rules depth 4))

  Releases-Holds : Holds Releases
  Releases-Holds = record {
    chains = Releases-Chains;
    checks = λ m h. Releases-NoWait m (Makes-weaken Checking-NoWait m h);
    limits = λ m h. Releases-NoWait m (Makes-weaken Limiting-NoWait m h);
  }

-- Whatever the system answers, Run waits for its child only right after it has closed its end of the
-- pipe for writing, or has tried to.
pub run-IsReleased :
    (os : Os) (order : List (Bytes × Bytes) → List (Bytes × Bytes)) (sequence : ℕ) (config : Config)
    → Each IsReleased (run os order sequence config []).1
unfolding Each
run-IsReleased os order sequence config =
    (run-Moves os Releases (Releases-Holds os)
        (with_network-Moves os Releases (Releases-Holds os)
          (λ m h. Releases-NoWait m (Makes-weaken Linking-NoWait m h)) (with_pipe-Releases os))
        order sequence config).at
      [] tt
