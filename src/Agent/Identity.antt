-- ===== src/Agent/Identity.antt =====
-- `kernlet-agent --identity`: what a process in the workload says of itself.
use kernlet.Common.{
  ℕ, List, [], ◌∷◌, ◌++◌, Bytes, codes, String, Bool, false, ◌||◌, Error, errno, fault, described,
  wrap, join as join_errors, Result, ok, err, fail_if, equal, ◌==◌, if◌then◌else◌,
}
use kernlet.Text.Split.{join}
use kernlet.Text.Decimal.{format_uint}
use kernlet.Text.Fields.{trim_space}
use kernlet.Sys.{
  Os, Io, text, number, flag, pure, lift, within_io, attempt, ◌>>=◌, ◌>>◌, hostname,
  working_directory, count_groups, read_link, read_file, stat,
}
use kernlet.Agent.Status.{status_field}
use kernlet.Agent.Interfaces.{Interface, network_interface_summary}
use kernlet.Agent.NetworkCheck.{verify_guest_network}

-- What the package os tells of the process without an error, and the result of net.Interfaces.
pub record Process : Type 0 where
  pub pid : ℕ
  pub parent_pid : ℕ
  pub uid : ℕ
  pub effective_uid : ℕ
  pub gid : ℕ
  pub effective_gid : ℕ
  pub getenv : Bytes → Bytes
  pub interfaces : Result (List Interface)

abbrev pub enoent : ℕ
enoent = 2

-- errors.Is(err, os.ErrNotExist): the error or one that it wraps.
is_caused_by : ℕ → Error → Bool
is_caused_by n (errno m) = m == n
is_caused_by n (wrap context e) = is_caused_by n e
is_caused_by n (join_errors e f) = is_caused_by n e || is_caused_by n f
is_caused_by n (fault text) = false
is_caused_by n (described text) = false

-- NAME=value
abbrev entry : String → Bytes → Bytes
entry name value = codes name ++ (b'=' ∷ value)

-- The fields of the process status, in the order in which they are read.
pub record Privileges : Type 0 where
  pub cap_inh : Bytes
  pub cap_prm : Bytes
  pub cap_eff : Bytes
  pub cap_bnd : Bytes
  pub cap_amb : Bytes
  pub no_new_privs : Bytes

module _ (os : Os) where
  -- "hidden" when /.oldroot is not there, "visible" when it is.
  old_root_state : Result Bool → Io Bytes
  unfolding is_caused_by
  old_root_state (ok _) = pure (codes "visible")
  old_root_state (err e) =
      if is_caused_by enoent e
      then pure (codes "hidden")
      else lift (err (wrap "inspect old root" e))

  read_privileges : Bytes → Io Privileges
  read_privileges status = do
    cap_inh ← lift (status_field status (codes "CapInh"))
    cap_prm ← lift (status_field status (codes "CapPrm"))
    cap_eff ← lift (status_field status (codes "CapEff"))
    cap_bnd ← lift (status_field status (codes "CapBnd"))
    cap_amb ← lift (status_field status (codes "CapAmb"))
    no_new_privs ← lift (status_field status (codes "NoNewPrivs"))
    pure (record {
      cap_inh = cap_inh;
      cap_prm = cap_prm;
      cap_eff = cap_eff;
      cap_bnd = cap_bnd;
      cap_amb = cap_amb;
      no_new_privs = no_new_privs;
    })

  -- From the group list to the network check; the result is the end of the report.
  privilege_entries : ℕ → Privileges → List Bytes
  privilege_entries groups p =
      entry "groups" (format_uint groups)
      ∷ entry "cap-inh" p.cap_inh
      ∷ entry "cap-prm" p.cap_prm
      ∷ entry "cap-eff" p.cap_eff
      ∷ entry "cap-bnd" p.cap_bnd
      ∷ entry "cap-amb" p.cap_amb
      ∷ entry "no-new-privs" p.no_new_privs
      ∷ []

  network_entries : Process → Io (List Bytes)
  network_entries process = do
    cgroup ← within_io "read process cgroup" (text os (read_file (codes "/proc/self/cgroup")))
    namespace ← within_io "read network namespace" (text os (read_link (codes "/proc/self/ns/net")))
    interfaces ←
        within_io "read network interfaces" (lift (network_interface_summary process.interfaces))
    lift
        (fail_if (equal (process.getenv (codes "KERNLET_GATEWAY")) []) "network gateway is missing")
    within_io "verify workload network"
        (verify_guest_network os (process.getenv (codes "KERNLET_GATEWAY")))
    pure (
        entry "cgroup" (trim_space cgroup)
        ∷ entry "netns" namespace
        ∷ entry "interfaces" interfaces
        ∷ entry "gateway" (process.getenv (codes "KERNLET_GATEWAY"))
        ∷ entry "network" (codes "ready")
        ∷ [])

  id_entries : Process → List Bytes
  id_entries process =
      entry "uid" (format_uint process.uid)
      ∷ entry "euid" (format_uint process.effective_uid)
      ∷ entry "gid" (format_uint process.gid)
      ∷ entry "egid" (format_uint process.effective_gid)
      ∷ []

  -- The line that is printed, without its end.
  pub identity : Process → Io Bytes
  unfolding privilege_entries id_entries
  identity process = do
    name ← within_io "read hostname" (text os hostname)
    proc_self ← within_io "read /proc/self" (text os (read_link (codes "/proc/self")))
    proc_root ← within_io "read /proc/self/root" (text os (read_link (codes "/proc/self/root")))
    cwd ← within_io "get cw" (text os working_directory)
    marker ← within_io "read rootfs marker" (text os (read_file (codes "/etc/kernlet-rootfs")))
    found ← attempt (flag os (stat (codes "/.oldroot")))
    old_root ← old_root_state found
    groups ← within_io "read groups" (number os count_groups)
    status ← within_io "read process status" (text os (read_file (codes "/proc/self/status")))
    privileges ← read_privileges status
    network ← network_entries process
    pure (
        join b' ' (
          entry "hostname" name
          ∷ entry "pid" (format_uint process.pid)
          ∷ entry "ppid" (format_uint process.parent_pid)
          ∷ entry "proc-self" proc_self
          ∷ entry "cwd" cwd
          ∷ entry "root" proc_root
          ∷ entry "rootfs" marker
          ∷ entry "old-root" old_root
          ∷ (id_entries process ++ (privilege_entries groups privileges ++ network))))
