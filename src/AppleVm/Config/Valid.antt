-- ===== src/AppleVm/Config/Valid.antt =====
-- Which configurations Config.validate accepts.
use kernlet.Common.{◌<◌, [], ◌∷◌, true, false, ok, equal, if◌then◌else◌, ◌≡◌, ◌↔◌, arith, ◌⊎◌}
use kernlet.AppleVm.Native.{Framework, History, inspected}
use kernlet.AppleVm.Config.{Config, validate}

-- What os.Stat has been asked before the root disk.
abbrev pub before_disk : Config → History → History
before_disk config h =
    if equal config.initramfs_path []
    then inspected config.kernel_path ∷ h
    else inspected config.initramfs_path ∷ inspected config.kernel_path ∷ h

-- The paths are given, and os.Stat finds them, in the order kernel, initial file system, if there is
-- one, and root disk; there is a CPU and some memory.
pub record IsValid (framework : Framework) (config : Config) (h : History) : Type 0 where
  pub kernel : (equal config.kernel_path [] ≡ false) × (framework.stat h config.kernel_path ≡ ok tt)
  pub initramfs :
      (equal config.initramfs_path [] ≡ true)
      ⊎ (framework.stat (inspected config.kernel_path ∷ h) config.initramfs_path ≡ ok tt)
  pub root_disk :
      (equal config.root_disk_path [] ≡ false)
      × (framework.stat (before_disk config h) config.root_disk_path ≡ ok tt)
  pub numbers : (0 < config.cpu_count) × (0 < config.memory_size)

validate_sound :
    (framework : Framework) (config : Config) (h : History)
    → (validate framework config h).0 ≡ ok tt
    → IsValid framework config h
unfolding validate
validate_sound framework config h e = ground arith

validate_complete :
    (framework : Framework) (config : Config) (h : History)
    → IsValid framework config h
    → (validate framework config h).0 ≡ ok tt
unfolding validate
validate_complete framework config h e = ground arith

-- A configuration is accepted exactly when its kernel and its root disk are given and are found, the
-- initial file system is found if one is given, and it has a CPU and some memory.
pub validate_iff :
    (framework : Framework) (config : Config) (h : History)
    → ((validate framework config h).0 ≡ ok tt) ↔ IsValid framework config h
validate_iff framework config h =
    (validate_sound framework config h, validate_complete framework config h)
