-- ===== src/Agent/Main.antt =====
-- main of the agent: the child process of a run, the two reports, or the first process of the guest.
pub mod Readied
pub mod Boot
use kernlet.Common.{
  ℕ, List, [], ◌∷◌, ◌++◌, Bytes, codes, wrap, Result, ok, err, equal, if◌then◌else◌,
}
use kernlet.Text.Decimal.{format_uint}
use kernlet.Sys.{
  Os, Io, act, text, pure, lift, within_io, ignore, attempt, ◌>>=◌, ◌>>◌, mkdir_all, mount,
  read_link, print, report,
}
use kernlet.Runtime.Arguments.{init_command}
use kernlet.Runtime.Cgroup.{setup_cgroups}
use kernlet.Runtime.Init.{init_process}
use kernlet.Agent.Identity.{Process, identity}
use kernlet.Agent.Serve.{
  Serving, waiting, stopped, is_errno, serve_vsock, start_network_check_server,
}

abbrev pub ebusy : ℕ
ebusy = 16

-- What `main` ends in: it returns, it still serves, with the connections so far, or it exits with status
-- 1. An error is a panic.
pub data Ending : Type 0 where
  returned : Ending
  serving : List ℕ → Ending
  exited : Ending

module _ (os : Os) where
  -- A mount point that is in use already is no error.
  check_mount : Result (Unit {0}) → Io (Unit {0})
  check_mount (ok _) = pure tt
  check_mount (err e) = if is_errno ebusy e then pure tt else lift (err (wrap "mount" e))

  pub must_mount : (source target kind : Bytes) → Io (Unit {0})
  must_mount source target kind = do
    within_io "create mount point" (act os (mkdir_all target 0o755))
    mounted ← attempt (act os (mount source target kind 0))
    check_mount mounted

  -- `if err != nil { fmt.Fprintf(os.Stderr, ...); os.Exit(1) }`
  or_exit : Result (Unit {0}) → Io Ending
  or_exit (ok _) = pure returned
  or_exit (err e) = do ignore (act os (report e)); pure exited

  run_init : List Bytes → Io Ending
  run_init args = do
    result ← attempt (within_io "runtime init" (init_process os args))
    or_exit result

  print_version : Io Ending
  print_version = do ignore (act os (print (codes "kernlet-agent\n"))); pure returned

  print_line : Bytes → Io (Unit {0})
  print_line line = ignore (act os (print (line ++ 10 ∷ [])))

  print_identity : Process → Io Ending
  print_identity process = do result ← attempt (identity os process >>= print_line); or_exit result

  -- An error that ends the loop of the connections is a panic.
  check_served : Serving → Io Ending
  check_served (waiting fds) = pure (serving fds)
  check_served (stopped e fds) = lift (err e)

  -- The agent as the first process of the guest; the loop of the connections runs so many rounds.
  boot : Process → ℕ → Io Ending
  boot process rounds = do
    print_line (codes "kernlet-agent: starting as PID " ++ format_uint process.pid)
    must_mount (codes "proc") (codes "/proc") (codes "proc")
    must_mount (codes "sysfs") (codes "/sys") (codes "sysfs")
    must_mount (codes "none") (codes "/sys/fs/cgroup") (codes "cgroup2")
    within_io "set up cgroups" (setup_cgroups os)
    namespace ←
        within_io "read guest network namespace" (text os (read_link (codes "/proc/self/ns/net")))
    print_line (codes "kernlet-agent: guest network namespace " ++ namespace)
    start_network_check_server os
    print_line []
    print_line (codes "================================")
    print_line (codes "       KERNLET GUEST READY")
    print_line (codes "================================")
    print_line []
    served ← serve_vsock os rounds
    check_served served

  -- The arguments behind the name of the program.
  pub main : Process → ℕ → List Bytes → Io Ending
  main process rounds [] = boot process rounds
  main process rounds (command ∷ []) =
      if equal command init_command
      then run_init []
      else if equal command (codes "--version")
      then print_version
      else if equal command (codes "--identity")
      then print_identity process
      else boot process rounds
  main process rounds (command ∷ args) =
      if equal command init_command then run_init args else boot process rounds
