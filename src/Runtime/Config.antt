-- ===== src/Runtime/Config.antt =====
-- The configuration of a run, and its checks.
use kernlet.Common.{
  ℕ, List, [], Bytes, codes, ◌||◌, not, Result, err, fault, within, equal, ltb, ◌==◌, length,
  if◌then◌else◌, ◌>>◌, fail_if,
}
use kernlet.Text.Split.{contains}
use kernlet.Text.Decimal.{parse_uint}
use kernlet.FilePath.{is_abs}
use kernlet.Sys.{Os, Io, flag, lift, pure, within_io, stat}
use kernlet.Sys

pub record Limits : Type 0 where
  pub memory_max : ℕ
  pub pids_max : ℕ
  pub cpu_quota : ℕ
  pub cpu_period : ℕ

pub record Config : Type 0 where
  pub command : List Bytes
  pub environment : List Bytes
  pub working_dir : Bytes
  pub hostname : Bytes
  pub rootfs : Bytes
  pub uid : ℕ
  pub gid : ℕ
  pub limits : Limits

abbrev pub max_hostname_length : ℕ
max_hostname_length = 64

unfoldable pub validate_limits : Limits → Result (Unit {0})
validate_limits limits = do
  fail_if (limits.memory_max == 0) "memory limit must be greater than zero"
  fail_if (limits.pids_max == 0) "process limit must be greater than zero"
  fail_if (limits.cpu_quota == 0) "CPU quota must be greater than zero"
  fail_if (ltb limits.cpu_period 1000 || ltb 1_000_000 limits.cpu_period)
      "CPU period must be between 1000 and 1000000 microseconds"

unfoldable pub validate_hostname : Bytes → Result (Unit {0})
validate_hostname hostname = do
  fail_if (equal hostname []) "hostname is required"
  fail_if (ltb max_hostname_length (length hostname)) "hostname exceeds 64 bytes"
  fail_if (contains 0 hostname) "hostname contains a null byte"

unfoldable pub validate_identity : ℕ → ℕ → Result (Unit {0})
validate_identity uid gid = do
  fail_if (uid == 0) "workload UID must be nonzero"
  fail_if (gid == 0) "workload GID must be nonzero"

unfoldable pub parse_id : Bytes → Result ℕ
parse_id text = within "parse" (parse_uint text)

module _ (os : Os) where
  -- os.Stat follows the two tests on the path.
  unfoldable pub validate_rootfs : Bytes → Io (Unit {0})
  validate_rootfs rootfs =
      if not (is_abs rootfs)
      then lift (err (fault "rootfs must be an absolute path"))
      else if equal rootfs (codes "/")
      then lift (err (fault "rootfs cannot be the guest root"))
      else Sys.◌>>=◌ (within_io "stat rootfs" (flag os (stat rootfs)))
          λ is_dir. lift (fail_if (not is_dir) "rootfs is not a directory")
