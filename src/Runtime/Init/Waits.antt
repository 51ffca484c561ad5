-- ===== src/Runtime/Init/Waits.antt =====
-- The child waits for the signal of Run before it changes anything.
use kernlet.Common.{ℕ, zero, suc, ◌+◌, List, [], Bytes, Result, ok, err, ◌⊎◌, inl, inr}
use kernlet.Sys.{
  Call, Event, counted, Trace, Os, Io, ◌>>=◌, stat, read_ready, open_ready, close_ready,
}
use kernlet.Sys.Only.{call_of, Makes, Makes-bind, makes_rules}
use kernlet.Sys.Cases.{bind_after}
use kernlet.Sys.Has.{Has, Each, Each-Extends, Has-IsPast, Extends-IsPast}
use kernlet.Sys.Steps.{Succeeds}
use kernlet.Runtime.Config.{validate_rootfs}
use kernlet.Runtime.Link.{wait_for_network, configure_workload_network}
use kernlet.Runtime.Link.Signal.{wait_for_network-Has}
use kernlet.Runtime.Arguments.{InitArguments}
use kernlet.Runtime.Init.{
  join_network, isolate, drop_from, drop_capability_bounding_set, drop_identity, enter_program,
  run_arguments, init_process,
}

-- What the child calls before the signal.
abbrev pub Waiting : Call → Type 0
Waiting (stat path) = Unit
Waiting open_ready = Unit
Waiting read_ready = Unit
Waiting close_ready = Unit
Waiting _ = ⊥

abbrev Anything : Call → Type 0
Anything _ = Unit

abbrev pub signal : Event
signal = counted read_ready 1

-- A call from before the signal, or one that the signal came before.
abbrev pub IsTimely : Event → Trace → Type 0
IsTimely e t = Waiting (call_of e) ⊎ Has signal t

module _ {A : Type 0} (m : Io A) (t : Trace) where
  wait_on : Makes Waiting m → Each IsTimely t → Each IsTimely (m t).1
  wait_on h k = Each-Extends IsTimely Waiting t (m t).1 (λ e u c _. inl c) (h.at t) k

  go_on : Makes Anything m → Has signal t → Each IsTimely t → Each IsTimely (m t).1
  go_on h signalled k =
      Each-Extends IsTimely Anything t (m t).1
        (λ e u _ past. inr (Has-IsPast signal t u past signalled)) (h.at t) k

anyway : {A : Type 0} (P : Trace → Type 0) (r : Result A × Trace) → P r.1 → Succeeds (λ _ u. P u) r
anyway P (ok a, u) h = h
anyway P (err e, u) h = tt

module _ (os : Os) where
  wait_for_network-Waiting : Makes Waiting (wait_for_network os)
  unfolding wait_for_network
  wait_for_network-Waiting = search makes_rules depth 20

  validate_rootfs-Waiting : (rootfs : Bytes) → Makes Waiting (validate_rootfs os rootfs)
  unfolding validate_rootfs
  validate_rootfs-Waiting rootfs = search makes_rules depth 20

  drop_from-Anything : (n capability : ℕ) → Makes Anything (drop_from os n capability)
  unfolding drop_from
  drop_from-Anything zero capability = search makes_rules depth 20
  drop_from-Anything (suc n) capability =
      Makes-bind _ _ (search makes_rules depth 8) λ _. drop_from-Anything n (capability + 1)

  configure-Anything :
      (name address gateway : Bytes)
      → Makes Anything (configure_workload_network os name address gateway)
  unfolding configure_workload_network
  configure-Anything name address gateway = search makes_rules depth 40

  -- What follows the signal, up to the program.
  rest-Anything :
      (config : InitArguments) → Makes Anything (isolate os config >>= λ _. enter_program os config)
  unfolding isolate enter_program drop_capability_bounding_set drop_identity
  rest-Anything config = search (makes_rules, drop_from-Anything) depth 60

  -- The signal was read, and every call so far was timely.
  abbrev Kept : {A : Type 0} → Result A × Trace → Type 0
  Kept r = Each IsTimely r.1 × Succeeds (λ _ u. Has signal u) r

  behind_signal :
      {A : Type 0} (m : Io A) (t : Trace)
      → Makes Anything m
      → Each IsTimely t
      → Has signal t
      → Kept (m t)
  behind_signal m t h k signalled = (
    go_on m t h signalled k,
    anyway (Has signal) (m t) (Has-IsPast signal t _ (Extends-IsPast t _ (h.at t)) signalled),
  )

  -- A part before the signal, and the rest.
  Waiting-bind :
      {A B : Type 0} (m : Io A) (f : A → Io B) (t : Trace)
      → Makes Waiting m
      → Each IsTimely t
      → ((a : A) (u : Trace) → Each IsTimely u → Kept (f a u))
      → Kept ((m >>= f) t)
  Waiting-bind m f t h k rest =
      bind_after (λ r. Each IsTimely r.1) Kept m f t (wait_on m t h k) rest λ e u g. (g, tt)

  Kept-bind :
      {A B : Type 0} (m : Io A) (f : A → Io B) (t : Trace)
      → Kept (m t)
      → ((a : A) → Makes Anything (f a))
      → Kept ((m >>= f) t)
  Kept-bind m f t h rest =
      bind_after Kept Kept m f t h (λ a u g. behind_signal (f a) u (rest a) g.0 g.1)
        λ e u g. (g.0, tt)

  wait_for_network-Kept : (t : Trace) → Each IsTimely t → Kept (wait_for_network os t)
  wait_for_network-Kept t k = (wait_on _ t (wait_for_network-Waiting) k, wait_for_network-Has os t)

  join_network-Kept :
      (config : InitArguments) (t : Trace) → Each IsTimely t → Kept (join_network os config t)
  unfolding join_network
  join_network-Kept config t k =
      Waiting-bind _ _ t (search (makes_rules, validate_rootfs-Waiting) depth 8) k λ _ u ku.
        Waiting-bind _ _ u (search makes_rules depth 4) ku λ _ v kv.
          Kept-bind _ _ v (wait_for_network-Kept v kv)
            λ _. search (makes_rules, configure-Anything) depth 8

  run_arguments-Kept :
      (config : InitArguments) (t : Trace) → Each IsTimely t → Kept (run_arguments os config t)
  unfolding run_arguments
  run_arguments-Kept config t k =
      Kept-bind _ _ t (join_network-Kept config t k) λ _. rest-Anything config

-- Whatever the system answers, the child makes no call but those of its checks before it has read the
-- byte 1 from the pipe.
pub init_process-IsTimely :
    (os : Os) (args : List Bytes) → Each IsTimely (init_process os args []).1
unfolding init_process Each
init_process-IsTimely os args =
    (Waiting-bind os _ _ [] (search makes_rules depth 4) tt (run_arguments-Kept os)).0
