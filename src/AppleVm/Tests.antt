-- ===== src/AppleVm/Tests.antt =====
-- A machine from its creation to its end.
use kernlet.Common.{
  ℕ, ◌^◌, ◌*◌, [], ◌∷◌, codes, none, some, true, false, ok, equal, ◌≡◌, ◌≢◌, refl, arith,
}
use kernlet.AppleVm.Native.{Framework}
use kernlet.AppleVm.Config.{Config, validate}
use kernlet.AppleVm.Config.Valid.{IsValid}
use kernlet.AppleVm.Machine.Cpus.{cpus_created, with_cpus, new-cpus_created}
use kernlet.Common.{inl, ◌+◌}
use kernlet.AppleVm.Bridge.{new_native_vm}
use kernlet.AppleVm.Machine.{Vm, new, create_valid, made_vm}
use kernlet.AppleVm.Machine.Steps.{
  System, starting, stopping, closing, dialling, perform, call, Reach, here, next,
}
use kernlet.AppleVm.Machine.Lifecycle.{Inv, new-Inv}
use kernlet.AppleVm.Machine.Closed.{Conforms, perform-Conforms}
use kernlet.AppleVm.Machine.Memory.{
  Contract, strings_made, strings_freed, errors_made, errors_freed, IsClean, new-IsClean,
}

-- Creates the machine 7, whose Stop fails.
abbrev sample : Framework
sample = record {
  pointer = λ h. 100;
  create = λ h config. (7, none);
  start = λ h handle. (0, none);
  stop = λ h handle. (1, some (200, codes "busy"));
  connect = λ h handle port. ((0, 5), none);
  stat = λ h path. ok tt;
  is_file = λ fd. true;
}

abbrev config : Config
config = record {
  kernel_path = codes "/k";
  initramfs_path = [];
  root_disk_path = codes "/d";
  cpu_count = 2;
  memory_size = 1024;
  kernel_command_line = codes "quiet";
}

abbrev opened : Vm
opened = record { native = some (record { handle = 7 }) }

abbrev first : System
first = record { vm = opened; history = (new sample config []).1 }

abbrev second : System
second = (perform sample stopping first).1

abbrev third : System
third = (perform sample closing second).1

reached : Reach sample first third
reached = next (next here (call stopping refl)) (call closing refl)

made : (new sample config []).0 ≡ ok opened
unfolding new create_valid made_vm validate new_native_vm equal
made = refl

sample-Contract : Contract sample
sample-Contract = record {
  created_clean = λ h c e. refl;
  started_clean = λ h x e. refl;
  stopped_clean = λ h x e. absurd (ground arith);
  connected_clean = λ h x p e. refl;
}

nothing-IsClean : IsClean []
unfolding strings_made strings_freed errors_made errors_freed
nothing-IsClean = record { balanced = λ p. (refl, refl); allocated = tt }

new-Inv_example : (x : ℕ) × (x ≢ 0) × (opened.native ≡ some (record { handle = x })) × Inv x third
new-Inv_example = new-Inv sample config opened [] third (λ x. tt) made reached

perform-Conforms_example :
    Conforms sample false (starting ∷ stopping ∷ closing ∷ dialling 10789 ∷ closing ∷ []) first
perform-Conforms_example =
    perform-Conforms sample (starting ∷ stopping ∷ closing ∷ dialling 10789 ∷ closing ∷ []) first

new-IsClean_example : IsClean third.history
new-IsClean_example =
    new-IsClean sample config opened [] third sample-Contract nothing-IsClean reached

config-IsValid : IsValid sample config []
unfolding equal
config-IsValid = record {
  kernel = (refl, refl);
  initramfs = inl refl;
  root_disk = (refl, refl);
  numbers = (omega arith, omega arith);
}

-- With 2 ^ 32 CPUs.
new-cpus_created_example :
    ((validate sample (with_cpus (1 * 2 ^ 32 + 0) config) []).0 ≡ ok tt)
    × (cpus_created (new sample (with_cpus (1 * 2 ^ 32 + 0) config) []).1 ≡ 0 ∷ cpus_created [])
new-cpus_created_example =
    new-cpus_created sample config [] 1 0 config-IsValid (omega arith) (omega arith)
