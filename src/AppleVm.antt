-- ===== src/AppleVm.antt =====
-- pkg/applevm: the handle of a virtual machine, over the C functions of its bridge.
pub mod Native
pub mod Config
pub mod Bridge
pub mod Machine
mod Tests
