-- ===== src/Runtime/Run/Signals.antt =====
-- Run signals its child when the child has its network.
use kernlet.Common.{ℕ, List, [], ◌∷◌, Bytes, Result, ok, err, Error, ◌≡◌, refl}
use kernlet.Sys.{
  Event, done, failed, counted, Trace, Os, act, number, attempt, within_io, ◌>>=◌, link_by_name,
  link_set_ns_pid, close_reader, write_ready,
}
use kernlet.Sys.Only.{call_of, Extends-refl, Makes, Makes-weaken, makes_rules}
use kernlet.Sys.Cases.{act_cases, number_cases, within_after}
use kernlet.Sys.Has.{Each}
use kernlet.Sys.Steps.{Succeeds, last_act, then_number}
use kernlet.Sys.Moves.{Moves, Moves-bind, Moves-deferred}
use kernlet.Runtime.Config.{Config}
use kernlet.Runtime.Network.{WorkloadNetwork}
use kernlet.Runtime.Link.{move_network_to_process}
use kernlet.Runtime.Run.{
  current_output, fail_with, after_close, give_up, after_signal, after_move, after_start, run_child,
  with_pipe, with_network, run,
}
use kernlet.Runtime.Run.Whole.{Holds, with_network-Moves, run-Moves}
use kernlet.Runtime.Run.Reports.{
  start_call, IsMoved, IsReported, NoSignal, Reports, Reports-Chains, Reports-NoSignal,
  Limiting-NoSignal, Linking-NoSignal, Checking-NoSignal,
}

module _ (os : Os) where
  current_output-NoSignal : Makes NoSignal (current_output os)
  unfolding current_output
  current_output-NoSignal = record { at = λ t. Extends-refl t }

  fail_with-NoSignal : (e : Error) → Makes NoSignal (fail_with os e)
  unfolding fail_with
  fail_with-NoSignal e = search (makes_rules, current_output-NoSignal) depth 8

  give_up-NoSignal : (e : Error) → Makes NoSignal (give_up os e)
  unfolding give_up
  give_up-NoSignal e = search (makes_rules, fail_with-NoSignal) depth 12

  after_close-NoSignal : (closed : Result (Unit {0})) → Makes NoSignal (after_close os closed)
  unfolding after_close
  after_close-NoSignal (err e) = search (makes_rules, fail_with-NoSignal) depth 12
  after_close-NoSignal (ok _) = search (makes_rules, current_output-NoSignal) depth 12

  after_signal-NoSignal :
      (signalled : Result (Unit {0})) → Makes NoSignal (after_signal os signalled)
  unfolding after_signal
  after_signal-NoSignal (err e) = give_up-NoSignal e
  after_signal-NoSignal (ok _) = search (makes_rules, after_close-NoSignal) depth 12

  move_network-NoSignal :
      (network : WorkloadNetwork) (pid : ℕ)
      → Makes NoSignal (move_network_to_process os network pid)
  unfolding move_network_to_process
  move_network-NoSignal network pid = search makes_rules depth 12

  signal-Each :
      (t : Trace)
      → IsMoved t
      → Each IsReported t
      → Each IsReported (within_io "signal network readiness" (act os write_ready) t).1
  unfolding Each
  signal-Each t moved k =
      within_after (λ r. Each IsReported r.1) (λ r. Each IsReported r.1) "signal network readiness"
        (act os write_ready) t
        (act_cases os write_ready t (λ r. Each IsReported r.1) (moved, k) λ e. (moved, k))
        (λ _ u h. h) λ e u h. h

  after_move-Each :
      (r : Result (Unit {0}) × Trace)
      → Each IsReported r.1
      → Succeeds (λ _ u. IsMoved u) r
      → Each IsReported (after_move os r.0 r.1).1
  unfolding after_move ◌>>=◌
  after_move-Each (err e, u) k moved = (Reports-NoSignal _ (give_up-NoSignal e)).at u k
  after_move-Each (ok _, u) k moved =
      let r = within_io "signal network readiness" (act os write_ready) u in
      (Reports-NoSignal _ (after_signal-NoSignal r.0)).at r.1 (signal-Each u moved k)

  module _ (config : Config) (network : WorkloadNetwork) (cgroup pid : ℕ) (before : Trace) where
    abbrev child_started : Trace
    child_started = counted (start_call config network cgroup) pid ∷ before

    move_network-IsMoved :
        (closing : Event)
        → call_of closing ≡ close_reader
        → Succeeds
            (λ _ u. IsMoved u)
            (move_network_to_process os network pid (closing ∷ child_started))
    unfolding move_network_to_process
    move_network-IsMoved closing closes =
        then_number os "find workload peer" (link_by_name network.peer_interface)
          (closing ∷ child_started) (λ _ u. IsMoved u) _
          λ peer.
            last_act os "move interface to process" (link_set_ns_pid peer pid) _ (λ _ u. IsMoved u)
              (record {
                config = config;
                network = network;
                cgroup = cgroup;
                pid = pid;
                peer = peer;
                closing = closing;
                closes = closes;
                before = before;
                whole = refl;
              })

    moved-Each :
        (closing : Event)
        → call_of closing ≡ close_reader
        → Each IsReported (closing ∷ child_started)
        → Each IsReported
            ((attempt (move_network_to_process os network pid) >>= after_move os)
              (closing ∷ child_started)).1
    unfolding ◌>>=◌
    moved-Each closing closes k =
        after_move-Each (move_network_to_process os network pid (closing ∷ child_started))
          ((Reports-NoSignal _ (move_network-NoSignal network pid)).at _ k)
          (move_network-IsMoved closing closes)

    after_start-Each :
        Each IsReported before → Each IsReported (after_start os network (ok pid) child_started).1
    unfolding after_start ◌>>=◌ Each
    after_start-Each k =
        act_cases os close_reader child_started
          (λ r.
            Each IsReported
              ((attempt (move_network_to_process os network pid) >>= after_move os) r.1).1)
          (moved-Each (done close_reader) refl (tt, (tt, k)))
          λ e. moved-Each (failed close_reader) refl (tt, (tt, k))

  -- After a success of Start the rest reports, after a failure nothing is left to report.
  abbrev AfterStart : WorkloadNetwork → Result ℕ × Trace → Type 0
  AfterStart network (ok pid, u) = Each IsReported (after_start os network (ok pid) u).1
  AfterStart network (err e, u) = Each IsReported u

  run_child-Reports :
      (config : Config) (network : WorkloadNetwork) (cgroup : ℕ)
      → Moves Reports (run_child os config network cgroup)
  unfolding run_child after_start ◌>>=◌ Each
  run_child-Reports config network cgroup = record {
    at = λ t k.
        within_after (AfterStart network) (λ r. Each IsReported (after_start os network r.0 r.1).1)
          "start" (number os (start_call config network cgroup)) t
          (number_cases os (start_call config network cgroup) t (AfterStart network)
            (λ pid. after_start-Each config network cgroup pid t k) λ e. (tt, k))
          (λ pid u h. h) λ e u h. (Reports-NoSignal _ (fail_with-NoSignal _)).at u h;
  }

  with_pipe-Reports :
      (config : Config) (network : WorkloadNetwork) (cgroup : ℕ)
      → Moves Reports (with_pipe os config network cgroup)
  unfolding with_pipe
  with_pipe-Reports config network cgroup =
      Moves-bind Reports-Chains _ _ (Reports-NoSignal _ (search makes_rules depth 4)) λ _.
        Moves-deferred Reports-Chains _ _
          (Moves-deferred Reports-Chains _ _ (run_child-Reports config network cgroup)
            (Reports-NoSignal _ (search makes_rules depth 4)))
          (Reports-NoSignal _ (search makes_rules depth 4))

  Reports-Holds : Holds Reports
  Reports-Holds = record {
    chains = Reports-Chains;
    checks = λ m h. Reports-NoSignal m (Makes-weaken Checking-NoSignal m h);
    limits = λ m h. Reports-NoSignal m (Makes-weaken Limiting-NoSignal m h);
  }

  with_network-Reports :
      (sequence : ℕ) (config : Config) (cgroup : ℕ)
      → Moves Reports (with_network os sequence config cgroup)
  with_network-Reports =
      with_network-Moves os Reports Reports-Holds
        (λ m h. Reports-NoSignal m (Makes-weaken Linking-NoSignal m h)) with_pipe-Reports

-- Whatever the system answers, Run writes the signal only when it has just moved the workload's
-- interface into the namespaces of the child that it started for it.
pub run-IsReported :
    (os : Os) (order : List (Bytes × Bytes) → List (Bytes × Bytes)) (sequence : ℕ) (config : Config)
    → Each IsReported (run os order sequence config []).1
unfolding Each
run-IsReported os order sequence config =
    (run-Moves os Reports (Reports-Holds os) (with_network-Reports os) order sequence config).at []
      tt
