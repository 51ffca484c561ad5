-- ===== src/Runtime/Run/Reports.antt =====
-- What Run has done when it writes the signal.
use kernlet.Common.{ℕ, ◌∷◌, ◌≡◌}
use kernlet.Sys.{
  Call, Event, done, counted, Trace, Io, start_process, link_by_name, link_set_ns_pid, close_reader,
  write_ready,
}
use kernlet.Sys.Only.{call_of, Makes}
use kernlet.Sys.Has.{Each, Each-Extends}
use kernlet.Sys.Moves.{Moves, Chains}
use kernlet.Runtime.Config.{Config}
use kernlet.Runtime.Arguments.{init_arguments}
use kernlet.Runtime.Network.{WorkloadNetwork}
use kernlet.Runtime.Link.{workload_environment}
use kernlet.Runtime.Run.{clone_flags}
use kernlet.Runtime.Run.Parts.{Linking, Limiting, Checking}

-- The call that starts the child.
abbrev pub start_call : Config → WorkloadNetwork → ℕ → Call
start_call config network cgroup =
    start_process (init_arguments config config.rootfs config.command network)
      (workload_environment config.environment network.gateway) clone_flags cgroup

-- The latest events: a child was started with the arguments for a network, the parent closed its end of
-- the pipe for reading, or tried, and the workload's interface of that network was found and moved into
-- the namespaces of the child.
pub record IsMoved (t : Trace) : Type 0 where
  pub config : Config
  pub network : WorkloadNetwork
  pub cgroup : ℕ
  pub pid : ℕ
  pub peer : ℕ
  pub closing : Event
  pub closes : call_of closing ≡ close_reader
  pub before : Trace
  pub whole :
      t
      ≡ done (link_set_ns_pid peer pid)
        ∷ counted (link_by_name network.peer_interface) peer
        ∷ closing
        ∷ counted (start_call config network cgroup) pid
        ∷ before

abbrev pub Told : Call → Trace → Type 0
Told write_ready t = IsMoved t
Told _ t = Unit

-- What was done before the event, if it is a signal.
abbrev pub IsReported : Event → Trace → Type 0
IsReported e t = Told (call_of e) t

abbrev pub NoSignal : Call → Type 0
NoSignal write_ready = ⊥
NoSignal _ = Unit

NoSignal-Told : (c : Call) (t : Trace) → NoSignal c → Told c t
NoSignal-Told write_ready t h = absurd h
NoSignal-Told _ t h = tt

-- Every signal was reported in time, if those before were.
abbrev pub Reports : Trace → Trace → Type 0
Reports t u = Each IsReported t → Each IsReported u

pub Reports-Chains : Chains Reports
Reports-Chains = record { same = λ t h. h; both = λ h k e. k (h e) }

pub Reports-NoSignal : {A : Type 0} (m : Io A) → Makes NoSignal m → Moves Reports m
Reports-NoSignal m h = record {
  at = λ t.
      Each-Extends IsReported NoSignal t (m t).1 (λ e u c _. NoSignal-Told (call_of e) u c)
        (h.at t);
}

pub Limiting-NoSignal : (c : Call) → Limiting c → NoSignal c
Limiting-NoSignal write_ready h = absurd h
Limiting-NoSignal _ h = tt

pub Linking-NoSignal : (c : Call) → Linking c → NoSignal c
Linking-NoSignal write_ready h = absurd h
Linking-NoSignal _ h = tt

pub Checking-NoSignal : (c : Call) → Checking c → NoSignal c
Checking-NoSignal write_ready h = absurd h
Checking-NoSignal _ h = tt
