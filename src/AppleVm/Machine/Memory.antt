-- ===== src/AppleVm/Machine/Memory.antt =====
-- The memory that crosses the bridge: the C strings of a configuration, and the error messages.
use kernlet.Common.{
  ℕ, ◌+◌, ◌<◌, [], ◌∷◌, Option, none, some, Result, ok, err, ◌==◌, if◌then◌else◌, ◌≡◌, ◌≢◌, arith,
}
use kernlet.AppleVm.Native.{
  Framework, History, NativeConfig, made_string, freed_string, made_error, freed_error,
  create_called,
}
use kernlet.AppleVm.Config.{Config, validate}
use kernlet.AppleVm.Bridge.{
  NativeVm, native_config, create_with, new_native_vm, native_start, native_stop, native_close,
  native_dial_vsock,
}
use kernlet.AppleVm.Machine.{Vm, create_valid, new, start, stop, close, dial_vsock}
use kernlet.AppleVm.Machine.Steps.{
  System, Operation, starting, stopping, closing, dialling, perform, call, Reach, here, next,
}

-- How often the pointer was allocated as a string, and freed as one.
unfoldable pub strings_made : ℕ → History → ℕ
strings_made p [] = 0
strings_made p (made_string q ∷ h) = (if q == p then 1 else 0) + strings_made p h
strings_made p (_ ∷ h) = strings_made p h

unfoldable pub strings_freed : ℕ → History → ℕ
strings_freed p [] = 0
strings_freed p (freed_string q ∷ h) = (if q == p then 1 else 0) + strings_freed p h
strings_freed p (_ ∷ h) = strings_freed p h

unfoldable pub errors_made : ℕ → History → ℕ
errors_made p [] = 0
errors_made p (made_error q ∷ h) = (if q == p then 1 else 0) + errors_made p h
errors_made p (_ ∷ h) = errors_made p h

unfoldable pub errors_freed : ℕ → History → ℕ
errors_freed p [] = 0
errors_freed p (freed_error q ∷ h) = (if q == p then 1 else 0) + errors_freed p h
errors_freed p (_ ∷ h) = errors_freed p h

-- Every string and every error message that was allocated was freed as often.
abbrev pub IsBalanced : ℕ → History → Type 0
IsBalanced p h = (strings_made p h ≡ strings_freed p h) × (errors_made p h ≡ errors_freed p h)

-- A string that was not freed yet.
abbrev pub IsAllocated : ℕ → History → Type 0
IsAllocated p h = strings_freed p h < strings_made p h

-- The strings of every configuration that applevm_create was given were still allocated.
abbrev pub UsesAllocated : History → Type 0
UsesAllocated [] = Unit
UsesAllocated (create_called config ∷ h) =
    IsAllocated config.kernel_path h
    × IsAllocated config.initramfs_path h
    × IsAllocated config.root_disk_path h
    × IsAllocated config.kernel_command_line h
    × UsesAllocated h
UsesAllocated (_ ∷ h) = UsesAllocated h

-- The contract of the header: an error message is only handed out with a failure.
pub record Contract (framework : Framework) : Type 0 where
  pub created_clean :
      (h : History) (config : NativeConfig)
      → (framework.create h config).0 ≢ 0
      → (framework.create h config).1 ≡ none
  pub started_clean :
      (h : History) (handle : ℕ)
      → (framework.start h handle).0 ≡ 0
      → (framework.start h handle).1 ≡ none
  pub stopped_clean :
      (h : History) (handle : ℕ)
      → (framework.stop h handle).0 ≡ 0
      → (framework.stop h handle).1 ≡ none
  pub connected_clean :
      (h : History) (handle port : ℕ)
      → (framework.connect h handle port).0.0 ≡ 0
      → (framework.connect h handle port).1 ≡ none

pub record IsClean (h : History) : Type 0 where
  pub balanced : (p : ℕ) → IsBalanced p h
  pub allocated : UsesAllocated h

-- The history behind the four calls of C.CString.
abbrev held : (kernel initramfs disk line : ℕ) → History → History
held kernel initramfs disk line h =
    made_string line ∷ made_string disk ∷ made_string initramfs ∷ made_string kernel ∷ h

held-IsAllocated :
    (kernel initramfs disk line : ℕ) (h : History)
    → ((p : ℕ) → IsBalanced p h)
    → IsAllocated kernel (held kernel initramfs disk line h)
      × IsAllocated initramfs (held kernel initramfs disk line h)
      × IsAllocated disk (held kernel initramfs disk line h)
      × IsAllocated line (held kernel initramfs disk line h)
unfolding strings_made strings_freed
held-IsAllocated kernel initramfs disk line h b =
    ground (arith, b kernel, b initramfs, b disk, b line)

module _ (framework : Framework) (contract : Contract framework) where
  native_start-IsBalanced :
      (native : NativeVm) (h : History) (p : ℕ)
      → IsBalanced p h
      → IsBalanced p (native_start framework native h).1
  unfolding native_start strings_made strings_freed errors_made errors_freed
  native_start-IsBalanced native h p b = ground (arith, contract.started_clean h native.handle)

  native_stop-IsBalanced :
      (native : NativeVm) (h : History) (p : ℕ)
      → IsBalanced p h
      → IsBalanced p (native_stop framework native h).1
  unfolding native_stop strings_made strings_freed errors_made errors_freed
  native_stop-IsBalanced native h p b = ground (arith, contract.stopped_clean h native.handle)

  native_dial_vsock-IsBalanced :
      (native : NativeVm) (port : ℕ) (h : History) (p : ℕ)
      → IsBalanced p h
      → IsBalanced p (native_dial_vsock framework native port h).1
  unfolding native_dial_vsock strings_made strings_freed errors_made errors_freed
  native_dial_vsock-IsBalanced native port h p b =
      ground (arith, contract.connected_clean h native.handle port)

  create_with-IsBalanced :
      (config : Config) (kernel initramfs disk line : ℕ) (h : History) (p : ℕ)
      → IsBalanced p h
      → IsBalanced p
          (create_with framework config kernel initramfs disk line
            (held kernel initramfs disk line h)).1
  unfolding create_with strings_made strings_freed errors_made errors_freed
  create_with-IsBalanced config kernel initramfs disk line h p b = ground (
    arith,
    contract.created_clean (held kernel initramfs disk line h)
        (native_config config kernel initramfs disk line),
  )

  create_with-UsesAllocated :
      (config : Config) (kernel initramfs disk line : ℕ) (h : History)
      → IsClean h
      → UsesAllocated
          (create_with framework config kernel initramfs disk line
            (held kernel initramfs disk line h)).1
  unfolding create_with
  create_with-UsesAllocated config kernel initramfs disk line h clean =
      ground (arith, held-IsAllocated kernel initramfs disk line h clean.balanced, clean.allocated)

  new_native_vm-IsClean :
      (config : Config) (h : History) → IsClean h → IsClean (new_native_vm framework config h).1
  unfolding new_native_vm
  new_native_vm-IsClean config h clean = record {
    balanced = λ p. create_with-IsBalanced config _ _ _ _ h p (clean.balanced p);
    allocated = create_with-UsesAllocated config _ _ _ _ h clean;
  }

  validate-IsClean :
      (config : Config) (h : History) → IsClean h → IsClean (validate framework config h).1
  unfolding validate strings_made strings_freed errors_made errors_freed
  validate-IsClean config h clean = record {
    balanced = λ p. ground (arith, clean.balanced p);
    allocated = ground (arith, clean.allocated);
  }

  new_fresh : (config : Config) (h : History) → IsClean h → IsClean (new framework config h).1
  unfolding new
  new_fresh config h clean =
      let valid = validate framework config h in
      created (valid.0) valid.1 (validate-IsClean config h clean)
    where
      created :
          (valid : Result (Unit {0})) (k : History)
          → IsClean k
          → IsClean (create_valid framework config valid k).1
      created (ok _) k c = unfold create_valid in new_native_vm-IsClean config k c
      created (err e) k c = unfold create_valid in c

  native_start-UsesAllocated :
      (native : NativeVm) (h : History)
      → UsesAllocated h
      → UsesAllocated (native_start framework native h).1
  unfolding native_start
  native_start-UsesAllocated native h a = ground arith

  native_stop-UsesAllocated :
      (native : NativeVm) (h : History)
      → UsesAllocated h
      → UsesAllocated (native_stop framework native h).1
  unfolding native_stop
  native_stop-UsesAllocated native h a = ground arith

  native_dial_vsock-UsesAllocated :
      (native : NativeVm) (port : ℕ) (h : History)
      → UsesAllocated h
      → UsesAllocated (native_dial_vsock framework native port h).1
  unfolding native_dial_vsock
  native_dial_vsock-UsesAllocated native port h a = ground arith

  native_close-IsClean :
      (native : NativeVm) (h : History) → IsClean h → IsClean (native_close native h).1
  unfolding native_close strings_made strings_freed errors_made errors_freed
  native_close-IsClean native h clean = record {
    balanced = λ p. ground (arith, clean.balanced p);
    allocated = ground (arith, clean.allocated);
  }

  perform-IsClean :
      (operation : Operation) (native : Option NativeVm) (h : History)
      → IsClean h
      → IsClean
          (perform framework operation
            (record { vm = record { native = native }; history = h })).1.history
  unfolding perform start stop close dial_vsock
  perform-IsClean starting none h clean = clean
  perform-IsClean stopping none h clean = clean
  perform-IsClean closing none h clean = clean
  perform-IsClean (dialling port) none h clean = clean
  perform-IsClean closing (some native) h clean = native_close-IsClean native h clean
  perform-IsClean starting (some native) h clean = record {
    balanced = λ p. native_start-IsBalanced native h p (clean.balanced p);
    allocated = native_start-UsesAllocated native h clean.allocated;
  }
  perform-IsClean stopping (some native) h clean = record {
    balanced = λ p. native_stop-IsBalanced native h p (clean.balanced p);
    allocated = native_stop-UsesAllocated native h clean.allocated;
  }
  perform-IsClean (dialling port) (some native) h clean = record {
    balanced = λ p. native_dial_vsock-IsBalanced native port h p (clean.balanced p);
    allocated = native_dial_vsock-UsesAllocated native port h clean.allocated;
  }

  Reach-IsClean : {s t : System} → IsClean s.history → Reach framework s t → IsClean t.history
  Reach-IsClean clean here = clean
  Reach-IsClean clean (next {t} reached (call operation e)) =
      rw e (perform-IsClean operation t.vm.native t.history (Reach-IsClean clean reached))

-- If C keeps to the contract of the header, then after New, whether it succeeds or fails, and after any
-- calls of the methods, every string and every error message that was allocated was freed as often
-- as it was allocated, and the strings of a configuration were freed only after applevm_create had read them.
pub new-IsClean :
    (framework : Framework) (config : Config) (vm : Vm) (h : History) (t : System)
    → Contract framework
    → IsClean h
    → Reach framework (record { vm = vm; history = (new framework config h).1 }) t
    → IsClean t.history
new-IsClean framework config vm h t contract clean reached =
    Reach-IsClean framework contract (new_fresh framework contract config h clean) reached
