-- ===== src/Runtime/Init.antt =====
-- InitProcess: the child process in its new namespaces, up to the program of the workload.
pub mod Ready
pub mod Guarded
pub mod Starts
pub mod Waits
use kernlet.Common.{
  ℕ, zero, suc, ◌+◌, ℤ, pos, negsuc, List, [], ◌∷◌, Bytes, codes, ok, err, Result, within,
}
use kernlet.Text.Fields.{trim_space}
use kernlet.Text.Integer.{atoi}
use kernlet.FilePath.{join_path}
use kernlet.Sys.{
  Os, Io, act, text, pure, lift, within_io, ◌>>=◌, ◌>>◌, set_hostname, mount, mkdir, pivot_root,
  change_dir, unmount, remove, look_path, set_no_new_privs, read_file, drop_capability,
  clear_groups, set_gids, set_uids, clear_capability_sets, exec,
}
use kernlet.Runtime.Config.{validate_identity, validate_rootfs}
use kernlet.Runtime.Link.{wait_for_network, configure_workload_network}
use kernlet.Runtime.Arguments.{InitArguments, parse_arguments}

-- MS_REC|MS_PRIVATE, MS_BIND, and MS_NOSUID|MS_NOEXEC|MS_NODEV
abbrev pub ms_private : ℕ
ms_private = 16_384 + 262_144

abbrev pub ms_bind : ℕ
ms_bind = 4096

abbrev pub ms_proc : ℕ
ms_proc = 2 + 8 + 4

-- MNT_DETACH
abbrev pub mnt_detach : ℕ
mnt_detach = 2

abbrev pub old_root_of : Bytes → Bytes
old_root_of rootfs = join_path (rootfs ∷ codes ".oldroot" ∷ [])

abbrev pub cap_last_cap : Bytes
cap_last_cap = codes "/proc/sys/kernel/cap_last_cap"

-- How often the loop from 0 to the last capability, inclusive, runs.
abbrev pub rounds : ℤ → ℕ
rounds (pos n) = suc n
rounds (negsuc n) = 0

-- The number of capabilities that the kernel's text stands for.
unfoldable pub capability_count : Bytes → Result ℕ
capability_count value = elim (within "parse last capability" (atoi (trim_space value))) [
  | ok last ↦ ok (rounds last)
  | err e ↦ err e
]

module _ (os : Os) where
  -- The part of InitProcess before the first change of the process.
  pub join_network : InitArguments → Io (Unit {0})
  join_network config = do
    within_io "invalid rootfs" (validate_rootfs os config.rootfs)
    lift (within "invalid identity" (validate_identity config.uid config.gid))
    wait_for_network os
    within_io "configure workload network" (
        configure_workload_network os config.peer_interface config.workload_address
          config.gateway_address)

  -- From the hostname to the working directory.
  pub isolate : InitArguments → Io (Unit {0})
  isolate config = do
    within_io "set hostname" (act os (set_hostname config.hostname))
    within_io "make mounts private" (act os (mount [] (codes "/") [] ms_private))
    within_io "bind rootfs" (act os (mount config.rootfs config.rootfs [] ms_bind))
    within_io "create old root directory" (act os (mkdir (old_root_of config.rootfs) 0o700))
    within_io "pivot root" (act os (pivot_root config.rootfs (old_root_of config.rootfs)))
    within_io "change directory to new root" (act os (change_dir (codes "/")))
    within_io "detach old root" (act os (unmount (codes "/.oldroot") mnt_detach))
    within_io "remove old root directory" (act os (remove (codes "/.oldroot")))
    within_io "mount private proc filesystem"
        (act os (mount (codes "proc") (codes "/proc") (codes "proc") ms_proc))
    within_io "change directory" (act os (change_dir config.working_dir))

  -- The loop of dropCapabilityBoundingSet, with the number of rounds left.
  pub drop_from : ℕ → ℕ → Io (Unit {0})
  drop_from zero capability = pure tt
  drop_from (suc n) capability = do
    within_io "drop capability from bounding set" (act os (drop_capability capability))
    drop_from n (capability + 1)

  pub drop_capability_bounding_set : Io (Unit {0})
  drop_capability_bounding_set = do
    value ← within_io "read last capability" (text os (read_file cap_last_cap))
    count ← lift (capability_count value)
    drop_from count 0

  -- What follows the bounding set, with clearCapabilities.
  pub drop_identity : InitArguments → Io (Unit {0})
  drop_identity config = do
    within_io "clear supplementary groups" (act os clear_groups)
    within_io "set workload GID" (act os (set_gids config.gid))
    within_io "set workload UID" (act os (set_uids config.uid))
    within_io "clear capability sets" (act os clear_capability_sets)

  -- From the executable to the program. A process whose `exec` succeeds is the program from then on.
  enter_program : InitArguments → Io (Unit {0})
  enter_program config = do
    path ← within_io "find executable" (text os (look_path config.executable))
    within_io "set no new privileges" (act os set_no_new_privs)
    drop_capability_bounding_set
    drop_identity config
    within_io "exec" (act os (exec path (config.executable ∷ config.arguments)))

  run_arguments : InitArguments → Io (Unit {0})
  run_arguments config = do join_network config; isolate config; enter_program config

  pub init_process : List Bytes → Io (Unit {0})
  init_process args = do config ← lift (parse_arguments args); run_arguments config
