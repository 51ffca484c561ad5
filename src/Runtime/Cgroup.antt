-- ===== src/Runtime/Cgroup.antt =====
-- SetupCgroups, createCgroup and what they call.
pub mod Limited
pub mod Willing
use kernlet.Common.{
  ℕ, List, [], ◌∷◌, ◌++◌, Bytes, codes, Bool, false, ◌||◌, not, Result, ok, err, fault,
  join as join_errors, equal, if◌then◌else◌,
}
use kernlet.Text.Decimal.{format_uint}
use kernlet.Text.Fields.{fields, normalize}
use kernlet.FilePath.{join_path}
use kernlet.Sys.{
  Os, Io, act, text, number, pure, lift, within_io, on_error, attempt, ◌>>=◌, ◌>>◌, read_file,
  write_file, mkdir_all, mkdir_temp, remove, open_file, close_file,
}
use kernlet.Runtime.Config.{Limits}

abbrev pub cgroup_mount : Bytes
cgroup_mount = codes "/sys/fs/cgroup"

abbrev pub cgroup_root : Bytes
cgroup_root = codes "/sys/fs/cgroup/kernlet"

abbrev pub required_controllers : List Bytes
required_controllers = codes "cpu" ∷ codes "memory" ∷ codes "pids" ∷ []

member : Bytes → List Bytes → Bool
member name [] = false
member name (n ∷ names) = equal n name || member name names

-- The loop over the required controllers; the map of the available ones holds the fields.
check_controllers : List Bytes → List Bytes → Result (Unit {0})
check_controllers available [] = ok tt
check_controllers available (controller ∷ required) =
    let rest = check_controllers available required in
    if not (member controller available)
    then err (fault "required controller is unavailable")
    else rest

-- The map of createCgroup, as pairs.
unfoldable pub limit_values : Limits → List (Bytes × Bytes)
limit_values limits =
    (codes "memory.max", format_uint limits.memory_max)
    ∷ (codes "pids.max", format_uint limits.pids_max)
    ∷ (codes "cpu.max", format_uint limits.cpu_quota ++ b' ' ∷ format_uint limits.cpu_period)
    ∷ []

module _ (os : Os) where
  unfoldable pub enable_controllers : Bytes → Io (Unit {0})
  unfolding check_controllers member
  enable_controllers path = do
    available ←
        within_io "read available controllers"
          (text os (read_file (join_path (path ∷ codes "cgroup.controllers" ∷ []))))
    lift (check_controllers (fields available) required_controllers)
    within_io "write subtree control" (
        act os (
          write_file (join_path (path ∷ codes "cgroup.subtree_control" ∷ []))
            (codes "+cpu +memory +pids") 0o644))

  unfoldable pub setup_cgroups : Io (Unit {0})
  setup_cgroups = do
    within_io "enable root cgroup controllers" (enable_controllers cgroup_mount)
    within_io "create kernlet cgroup" (act os (mkdir_all cgroup_root 0o755))
    within_io "enable kernlet cgroup controllers" (enable_controllers cgroup_root)

  -- The value is read back and compared, field by field.
  verify_value : Bytes → Bytes → Io (Unit {0})
  verify_value value actual =
      if not (equal (normalize actual) (normalize value))
      then lift (err (fault "verify cgroup value"))
      else pure tt

  unfoldable pub write_cgroup_value : Bytes → Bytes → Bytes → Io (Unit {0})
  unfolding verify_value
  write_cgroup_value path name value = do
    within_io "write cgroup value" (act os (write_file (join_path (path ∷ name ∷ [])) value 0o644))
    actual ← within_io "read cgroup value" (text os (read_file (join_path (path ∷ name ∷ []))))
    verify_value value actual

  -- The loop over the map, in the order in which it is given.
  unfoldable pub write_values : Bytes → List (Bytes × Bytes) → Io (Unit {0})
  write_values path [] = pure tt
  write_values path ((name, value) ∷ values) = do
    write_cgroup_value path name value
    write_values path values

  -- What follows MkdirTemp. Each step that fails is followed by the removal of the directory.
  unfoldable pub fill_cgroup : List (Bytes × Bytes) → Bytes → Io (Bytes × ℕ)
  fill_cgroup values path = do
    on_error (write_values path values) (act os (remove path))
    fd ←
        on_error (within_io "open workload cgroup" (number os (open_file path)))
          (act os (remove path))
    pure (path, fd)

  -- Go visits a map in any order: `values` is the map's pairs in the order of this run.
  unfoldable pub create_cgroup : List (Bytes × Bytes) → Io (Bytes × ℕ)
  create_cgroup values = do
    path ← within_io "create workload cgroup" (text os (mkdir_temp cgroup_root (codes "workload-")))
    fill_cgroup values path

  join_both : Result (Unit {0}) → Result (Unit {0}) → Result (Unit {0})
  join_both (ok _) r = r
  join_both (err e) (ok _) = err e
  join_both (err e) (err f) = err (join_errors e f)

  -- The directory is removed also when the descriptor cannot be closed.
  unfoldable pub close_and_remove_cgroup : Bytes → ℕ → Io (Unit {0})
  unfolding join_both
  close_and_remove_cgroup path fd = do
    closed ← attempt (act os (close_file fd))
    removed ← attempt (act os (remove path))
    lift (join_both closed removed)
