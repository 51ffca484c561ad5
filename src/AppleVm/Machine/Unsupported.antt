-- ===== src/AppleVm/Machine/Unsupported.antt =====
-- vm_unsupported.go: on other systems, and without cgo, there is no virtual machine.
use kernlet.Common.{ℕ, Result, ok, err}
use kernlet.AppleVm.Config.{Config}
use kernlet.AppleVm.Machine.{err_unsupported}

-- `type VM struct{}`
abbrev pub NoVm : Type 0
NoVm = Unit {0}

abbrev pub new_unsupported : Config → Result NoVm
new_unsupported config = err err_unsupported

abbrev pub start_unsupported : NoVm → Result (Unit {0})
start_unsupported vm = err err_unsupported

abbrev pub stop_unsupported : NoVm → Result (Unit {0})
stop_unsupported vm = err err_unsupported

abbrev pub close_unsupported : NoVm → Result (Unit {0})
close_unsupported vm = ok tt

-- The value of a connection is its descriptor.
abbrev pub dial_vsock_unsupported : NoVm → ℕ → Result ℕ
dial_vsock_unsupported vm port = err err_unsupported
