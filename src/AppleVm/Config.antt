-- ===== src/AppleVm/Config.antt =====
-- Config and its checks.
pub mod Valid
use kernlet.Common.{
  ℕ, ◌<◌, String, [], Bytes, Bool, true, false, not, ◌||◌, Result, ok, err, fault, within, equal,
  ◌==◌, if◌then◌else◌,
}
use kernlet.AppleVm.Native.{Framework, Foreign, ◌>>=◌, pure, stat}

-- `uint` has 64 bits on this host.
pub record Config : Type 0 where
  pub kernel_path : Bytes
  pub initramfs_path : Bytes
  pub root_disk_path : Bytes
  pub cpu_count : ℕ
  pub memory_size : ℕ
  pub kernel_command_line : Bytes

-- `if test { return fmt.Errorf(message) }` in front of the rest.
abbrev pub refuse_if : Bool → String → Foreign (Result (Unit {0})) → Foreign (Result (Unit {0}))
refuse_if true text rest = pure (err (fault text))
refuse_if false text rest = rest

-- `if err != nil { return fmt.Errorf("...: %w", err) }` in front of the rest.
abbrev pub or_return :
    String → Result (Unit {0}) → Foreign (Result (Unit {0})) → Foreign (Result (Unit {0}))
or_return text (ok _) rest = rest
or_return text (err e) rest = pure (within text (err e))

module _ (framework : Framework) where
  check_path : String → Bytes → Foreign (Result (Unit {0})) → Foreign (Result (Unit {0}))
  check_path text path rest = stat framework path >>= λ found. or_return text found rest

  check_initramfs : Bytes → Foreign (Result (Unit {0})) → Foreign (Result (Unit {0}))
  unfolding check_path
  check_initramfs path rest = if equal path [] then rest else check_path "initramfs" path rest

  check_numbers : Config → Foreign (Result (Unit {0}))
  check_numbers config =
      refuse_if (config.cpu_count == 0) "CPU count must be greater than 0"
        (refuse_if (config.memory_size == 0) "memory size must be greater than 0" (pure (ok tt)))

  check_root_disk : Config → Foreign (Result (Unit {0}))
  unfolding check_path check_numbers
  check_root_disk config =
      refuse_if (equal config.root_disk_path []) "root disk path is required"
        (check_path "root disk" config.root_disk_path (check_numbers config))

  unfoldable pub validate : Config → Foreign (Result (Unit {0}))
  unfolding check_path check_initramfs check_root_disk
  validate config = refuse_if (equal config.kernel_path []) "kernel path is required" (
      check_path "kernel" config.kernel_path
        (check_initramfs config.initramfs_path (check_root_disk config)))
