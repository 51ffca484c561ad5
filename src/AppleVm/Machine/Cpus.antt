-- ===== src/AppleVm/Machine/Cpus.antt =====
-- The number of CPUs of a configuration, from the check to the C side.
use kernlet.Common.{ℕ, ◌+◌, ◌*◌, ◌%◌, ◌^◌, ◌<◌, List, [], ◌∷◌, Result, ok, err, ◌≡◌, ap, ◌∙◌, arith}
use kernlet.AppleVm.Native.{Framework, History, create_called}
use kernlet.AppleVm.Config.{Config, validate}
use kernlet.AppleVm.Config.Valid.{IsValid, validate_iff}
use kernlet.AppleVm.Bridge.{native_error, create_with, new_native_vm}
use kernlet.AppleVm.Machine.{new, create_valid}

-- How many CPUs applevm_create was asked for, in each of its calls, the latest first.
pub cpus_created : History → List ℕ
cpus_created [] = []
cpus_created (create_called config ∷ h) = config.cpu_count ∷ cpus_created h
cpus_created (_ ∷ h) = cpus_created h

abbrev pub with_cpus : ℕ → Config → Config
with_cpus n config = record config { cpu_count = n }

module _ (framework : Framework) where
  validate-cpus_created :
      (config : Config) (h : History)
      → cpus_created (validate framework config h).1 ≡ cpus_created h
  unfolding validate cpus_created
  validate-cpus_created config h = ground arith

  create_with-cpus_created :
      (config : Config) (kernel initramfs disk line : ℕ) (h : History)
      → cpus_created (create_with framework config kernel initramfs disk line h).1
        ≡ config.cpu_count % 2 ^ 32 ∷ cpus_created h
  unfolding create_with cpus_created native_error
  create_with-cpus_created config kernel initramfs disk line h = ground arith

  new_native_vm-cpus_created :
      (config : Config) (h : History)
      → cpus_created (new_native_vm framework config h).1
        ≡ config.cpu_count % 2 ^ 32 ∷ cpus_created h
  unfolding new_native_vm cpus_created
  new_native_vm-cpus_created config h = create_with-cpus_created config _ _ _ _ _

  created_after :
      (config : Config) (valid : Result (Unit {0})) (h : History)
      → valid ≡ ok tt
      → cpus_created (create_valid framework config valid h).1
        ≡ config.cpu_count % 2 ^ 32 ∷ cpus_created h
  unfolding create_valid
  created_after config (ok _) h e = new_native_vm-cpus_created config h
  created_after config (err x) h e = absurd (ground arith)

  with_cpus-IsValid :
      (n : ℕ) (config : Config) (h : History)
      → 0 < n
      → IsValid framework config h
      → IsValid framework (with_cpus n config) h
  with_cpus-IsValid n config h positive valid = record {
    kernel = valid.kernel;
    initramfs = valid.initramfs;
    root_disk = valid.root_disk;
    numbers = (positive, valid.numbers.1);
  }

  -- A configuration that is valid stays valid with any other positive number of CPUs, and New then calls
  -- applevm_create once, with the rest of that number modulo 2 ^ 32: with k * 2 ^ 32 + n CPUs, where
  -- n < 2 ^ 32, C is asked for n of them, which is none for the accepted numbers k * 2 ^ 32.
  pub new-cpus_created :
      (config : Config) (h : History) (k n : ℕ)
      → IsValid framework config h
      → n < 2 ^ 32
      → 0 < k * 2 ^ 32 + n
      → ((validate framework (with_cpus (k * 2 ^ 32 + n) config) h).0 ≡ ok tt)
        × (cpus_created (new framework (with_cpus (k * 2 ^ 32 + n) config) h).1
            ≡ n ∷ cpus_created h)
  unfolding new
  new-cpus_created config h k n valid small positive =
      let many = with_cpus (k * 2 ^ 32 + n) config in
      let accepted : (validate framework many h).0 ≡ ok tt =
        (validate_iff framework many h).1 (with_cpus-IsValid _ config h positive valid) in
      let rest : (k * 2 ^ 32 + n) % 2 ^ 32 ≡ n = omega arith in
      (
        accepted,
        created_after many _ (validate framework many h).1 accepted
            ∙ ap (λ (m : ℕ). m ∷ cpus_created (validate framework many h).1) rest
            ∙ ap (λ (l : List ℕ). n ∷ l) (validate-cpus_created many h),
      )
