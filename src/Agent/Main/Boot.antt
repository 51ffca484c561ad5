-- ===== src/Agent/Main/Boot.antt =====
-- The agent takes connections when it has prepared the guest.
use kernlet.Common.{ℕ, List, [], ◌∷◌, Bytes, codes, Result, ok, err, inl, inr, refl, Bool-cases}
use kernlet.FilePath.{join_path}
use kernlet.Sys.{Event, done, Trace, Os, act, attempt, within_io, ◌>>=◌, mount, write_file}
use kernlet.Sys.Only.{Makes, Makes-within_io, makes_rules}
use kernlet.Sys.Cases.{act_cases}
use kernlet.Sys.Known.{HasOne, nothing_known, after_context}
use kernlet.Agent.Serve.Calls.{serve_vsock-Anything}
use kernlet.Sys.Has.{Has, Each}
use kernlet.Sys.Steps.{Succeeds, last_act, then_known}
use kernlet.Runtime.Cgroup.{cgroup_root, enable_controllers, setup_cgroups}
use kernlet.Agent.Identity.{Process}
use kernlet.Agent.Serve.{Serving, waiting, stopped, start_network_check_server, is_errno}
use kernlet.Agent.Main.{check_served, check_mount, must_mount, print_line, boot, main, ebusy}
use kernlet.Agent.Main.Readied.{
  NoSocket, mounted, controlled, proc_mounted, sys_mounted, cgroup_mounted, IsReadied, step, pass,
  last_step,
}

module _ (os : Os) where
  print_line-NoSocket : (line : Bytes) → Makes NoSocket (print_line os line)
  unfolding print_line
  print_line-NoSocket line = search makes_rules depth 8

  server-NoSocket : Makes NoSocket (start_network_check_server os)
  unfolding start_network_check_server
  server-NoSocket = search makes_rules depth 8

  check_mount-NoSocket : (r : Result (Unit {0})) → Makes NoSocket (check_mount os r)
  unfolding check_mount
  check_mount-NoSocket (ok _) = search makes_rules depth 8
  check_mount-NoSocket (err e) = search makes_rules depth 8

  must_mount-NoSocket :
      (source target kind : Bytes) → Makes NoSocket (must_mount os source target kind)
  unfolding must_mount
  must_mount-NoSocket source target kind = search (makes_rules, check_mount-NoSocket) depth 12

  setup_cgroups-NoSocket : Makes NoSocket (setup_cgroups os)
  unfolding setup_cgroups enable_controllers
  setup_cgroups-NoSocket = search makes_rules depth 20

  check_mount-HasOne :
      (events : List Event) (r : Result (Unit {0})) (t : Trace)
      → HasOne events t
      → Succeeds (λ _ u. HasOne events u) (check_mount os r t)
  unfolding check_mount ◌>>=◌
  check_mount-HasOne events (ok _) t h = h
  check_mount-HasOne events (err e) t h = elim (Bool-cases (is_errno ebusy e)) [
    | inl busy ↦ rw busy h
    | inr other ↦ rw other tt
  ]

  mount-HasOne :
      (source target kind : Bytes) (t : Trace)
      → Succeeds
          (λ _ u. HasOne (mounted source target kind) u)
          ((attempt (act os (mount source target kind 0)) >>= check_mount os) t)
  unfolding Has ◌>>=◌
  mount-HasOne source target kind t =
      act_cases os (mount source target kind 0) t
        (λ r. Succeeds (λ _ u. HasOne (mounted source target kind) u) (check_mount os r.0 r.1))
        (check_mount-HasOne (mounted source target kind) (ok tt) _ (inl (inl refl)))
        λ e. check_mount-HasOne (mounted source target kind) (err e) _ (inr (inl (inl refl)))

  must_mount-HasOne :
      (source target kind : Bytes) (t : Trace)
      → Succeeds (λ _ u. HasOne (mounted source target kind) u) (must_mount os source target kind t)
  unfolding must_mount
  must_mount-HasOne source target kind t =
      then_known (λ _ u. HasOne (mounted source target kind) u) (λ _ _. Unit) _ _ t
        (nothing_known _) λ _ u _. mount-HasOne source target kind u

  enable_controllers-HasOne :
      (path : Bytes) (t : Trace)
      → Succeeds
          (λ _ u.
            HasOne
              (done (
                  write_file
                    (join_path (path ∷ codes "cgroup.subtree_control" ∷ []))
                    (codes "+cpu +memory +pids")
                    0o644)
                ∷ [])
              u)
          (enable_controllers os path t)
  unfolding enable_controllers Has
  enable_controllers-HasOne path t =
      then_known _ (λ _ _. Unit) _ _ t (nothing_known _)
        λ _ u _.
          then_known _ (λ _ _. Unit) _ _ u (nothing_known _)
            λ _ v _. last_act os "write subtree control" _ v _ (inl (inl refl))

  setup_cgroups-HasOne :
      (t : Trace)
      → Succeeds (λ _ u. HasOne controlled u) (within_io "set up cgroups" (setup_cgroups os) t)
  unfolding setup_cgroups
  setup_cgroups-HasOne t = after_context _ "set up cgroups" (setup_cgroups os) t (
      then_known _ (λ _ _. Unit) _ _ t (nothing_known _)
        λ _ u _.
          then_known _ (λ _ _. Unit) _ _ u (nothing_known _)
            λ _ v _.
              after_context _ "enable kernlet cgroup controllers"
                (enable_controllers os cgroup_root) v (enable_controllers-HasOne cgroup_root v))

  print_line-Anything : (line : Bytes) → Makes (λ _. Unit) (print_line os line)
  unfolding print_line
  print_line-Anything line = search makes_rules depth 8

  check_served-Anything : (served : Serving) → Makes (λ _. Unit) (check_served os served)
  unfolding check_served
  check_served-Anything (waiting fds) = search makes_rules depth 4
  check_served-Anything (stopped e fds) = search makes_rules depth 4

  server-Anything : Makes (λ _. Unit) (start_network_check_server os)
  unfolding start_network_check_server
  server-Anything = search makes_rules depth 8

  boot-Each : (process : Process) (rounds : ℕ) → Each IsReadied (boot os process rounds []).1
  unfolding boot Each
  boot-Each process rounds = pass _ _ [] [] (print_line-NoSocket _) tt tt λ _ t known k.
      step _ _ t [] proc_mounted (must_mount-NoSocket _ _ _) (must_mount-HasOne _ _ _ t) known k
        λ _ u known k.
          step _ _ u (proc_mounted ∷ []) sys_mounted (must_mount-NoSocket _ _ _)
            (must_mount-HasOne _ _ _ u) known k
            λ _ v known k.
              step _ _ v (sys_mounted ∷ proc_mounted ∷ []) cgroup_mounted
                (must_mount-NoSocket _ _ _) (must_mount-HasOne _ _ _ v) known k
                λ _ w known k.
                  last_step _ _ w
                    (Makes-within_io "set up cgroups" (setup_cgroups os) setup_cgroups-NoSocket)
                    (setup_cgroups-HasOne w) known k
                    λ _.
                      search
                        (
                          makes_rules, print_line-Anything, server-Anything, serve_vsock-Anything,
                          check_served-Anything,
                        )
                        depth 60

-- Whatever the system answers, and for any number of rounds, the agent that is started with no argument
-- makes no call on its vsock socket before it has mounted /proc, /sys and /sys/fs/cgroup, or has tried
-- to, and has enabled the controllers of the cgroup of all workloads.
pub main-IsReadied :
    (os : Os) (process : Process) (rounds : ℕ) → Each IsReadied (main os process rounds [] []).1
unfolding main
main-IsReadied os process rounds = boot-Each os process rounds
