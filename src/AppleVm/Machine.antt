-- ===== src/AppleVm/Machine.antt =====
-- VM of pkg/applevm/vm_darwin.go, and the one of vm_unsupported.go. Every method of the first holds the
-- mutex from its first line to its return, so that concurrent calls are some sequence of calls.
pub mod Unsupported
pub mod Steps
pub mod Lifecycle
pub mod Closed
pub mod Memory
pub mod Cpus
use kernlet.Common.{ℕ, String, Option, none, some, Error, fault, Result, ok, err, within}
use kernlet.AppleVm.Native.{Framework, Foreign, ◌>>=◌, ◌>>◌, pure}
use kernlet.AppleVm.Config.{Config, validate}
use kernlet.AppleVm.Bridge.{
  NativeVm, new_native_vm, native_start, native_stop, native_close, native_dial_vsock,
}

pub record Vm : Type 0 where
  pub native : Option NativeVm

abbrev pub err_closed : Error
err_closed = fault "applevm: virtual machine is closed"

abbrev pub err_unsupported : Error
err_unsupported = fault "applevm: requires macOS with cgo enabled"

-- The receiver of a method afterwards, and the result.
abbrev pub Method : Type 0 → Type 0
Method A = Vm → Foreign (Result A × Vm)

module _ (framework : Framework) where
  unfoldable pub made_vm : Result NativeVm → Result Vm
  made_vm (ok native) = ok (record { native = some native })
  made_vm (err e) = within "applevm: create VM" (err e)

  unfoldable pub create_valid : Config → Result (Unit {0}) → Foreign (Result Vm)
  unfolding made_vm
  create_valid config (ok _) = new_native_vm framework config >>= λ native. pure (made_vm native)
  create_valid config (err e) = pure (within "applevm: invalid config" (err e))

  unfoldable pub new : Config → Foreign (Result Vm)
  unfolding create_valid
  new config = validate framework config >>= create_valid config

  -- `vm.mu.Lock()`, the test on `vm.native`, and a call on it.
  with_native :
      {A : Type 0}
      → String
      → (NativeVm → Foreign (Result A))
      → Option NativeVm
      → Foreign (Result A × Vm)
  with_native text call none = pure (err err_closed, record { native = none })
  with_native text call (some native) =
      call native >>= λ result. pure (within text result, record { native = some native })

  unfoldable pub start : Method (Unit {0})
  unfolding with_native
  start vm = with_native "applevm: start VM" (native_start framework) vm.native

  unfoldable pub stop : Method (Unit {0})
  unfolding with_native
  stop vm = with_native "applevm: stop VM" (native_stop framework) vm.native

  unfoldable pub dial_vsock : ℕ → Method ℕ
  unfolding with_native
  dial_vsock port vm =
      with_native "applevm: dial guest vsock port"
        (λ native. native_dial_vsock framework native port) vm.native

close_native : Option NativeVm → Foreign (Result (Unit {0}) × Vm)
close_native none = pure (ok tt, record { native = none })
close_native (some native) = native_close native >> pure (ok tt, record { native = none })

unfoldable pub close : Method (Unit {0})
unfolding close_native
close vm = close_native vm.native
