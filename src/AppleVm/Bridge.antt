-- ===== src/AppleVm/Bridge.antt =====
-- nativeVM: the C strings, handles and error messages of pkg/applevm/bridge_darwin.go.
use kernlet.Common.{
  ℕ, ◌%◌, ◌^◌, String, none, some, Bool, not, Error, fault, described, Result, ok, err, ◌==◌,
  if◌then◌else◌,
}
use kernlet.AppleVm.Native.{
  Framework, Foreign, CError, NativeConfig, ◌>>=◌, ◌>>◌, pure, note, freed_string, freed_error,
  destroyed, c_string, applevm_create, applevm_start, applevm_stop, applevm_vsock_connect,
}
use kernlet.AppleVm.Config.{Config}

-- `handle` is nil when it is 0.
pub record NativeVm : Type 0 where
  pub handle : ℕ

-- The message is copied to a Go string before it is freed.
unfoldable pub native_error : CError → String → Foreign Error
native_error none fallback = pure (fault fallback)
native_error (some (pointer, text)) fallback = note (freed_error pointer) >> pure (described text)

-- `if result != 0 { return nativeError(cErr, fallback) }`
check_result : ℕ × CError → String → Foreign (Result (Unit {0}))
unfolding native_error
check_result (result, c_error) fallback =
    if not (result == 0)
    then (native_error c_error fallback >>= λ e. pure (err e))
    else pure (ok tt)

-- `cpu_count: C.uint32_t(config.CPUCount)`: the higher bits are cut off.
abbrev pub native_config : Config → (kernel initramfs disk line : ℕ) → NativeConfig
native_config config kernel initramfs disk line = record {
  kernel_path = kernel;
  initramfs_path = initramfs;
  root_disk_path = disk;
  kernel_command_line = line;
  cpu_count = config.cpu_count % 2 ^ 32;
  memory_size = config.memory_size;
}

check_handle : ℕ × CError → Foreign (Result NativeVm)
unfolding native_error
check_handle (handle, c_error) =
    if handle == 0
    then (native_error c_error "failed to create virtual machine" >>= λ e. pure (err e))
    else pure (ok (record { handle = handle }))

-- The file of a connection, by its descriptor.
check_connection : (ℕ × ℕ) × CError → (ℕ → Bool) → Foreign (Result ℕ)
unfolding native_error
check_connection ((result, fd), c_error) is_file =
    if not (result == 0)
    then (native_error c_error "failed to connect to guest vsock" >>= λ e. pure (err e))
    else if not (is_file fd)
    then pure (err (fault "failed to create Go file from vsock"))
    else pure (ok fd)

module _ (framework : Framework) where
  -- The rest of newNativeVM behind the four strings: the four deferred `C.free` calls run in the
  -- reverse order.
  unfoldable pub create_with : Config → (kernel initramfs disk line : ℕ) → Foreign (Result NativeVm)
  unfolding check_handle
  create_with config kernel initramfs disk line = do
    handle ← applevm_create framework (native_config config kernel initramfs disk line)
    result ← check_handle handle
    note (freed_string line)
    note (freed_string disk)
    note (freed_string initramfs)
    note (freed_string kernel)
    pure result

  unfoldable pub new_native_vm : Config → Foreign (Result NativeVm)
  unfolding create_with
  new_native_vm config = do
    kernel ← c_string framework config.kernel_path
    initramfs ← c_string framework config.initramfs_path
    disk ← c_string framework config.root_disk_path
    line ← c_string framework config.kernel_command_line
    create_with config kernel initramfs disk line

  unfoldable pub native_start : NativeVm → Foreign (Result (Unit {0}))
  unfolding check_result
  native_start vm = do
    result ← applevm_start framework vm.handle
    check_result result "failed to start virtual machine"

  unfoldable pub native_stop : NativeVm → Foreign (Result (Unit {0}))
  unfolding check_result
  native_stop vm = do
    result ← applevm_stop framework vm.handle
    check_result result "failed to stop virtual machine"

  unfoldable pub native_dial_vsock : NativeVm → ℕ → Foreign (Result ℕ)
  unfolding check_connection
  native_dial_vsock vm port = do
    result ← applevm_vsock_connect framework vm.handle port
    check_connection result framework.is_file

-- The method changes its receiver: the value is the native machine afterwards.
unfoldable pub native_close : NativeVm → Foreign NativeVm
native_close vm =
    if vm.handle == 0 then pure vm else (note (destroyed vm.handle) >> pure (record { handle = 0 }))
