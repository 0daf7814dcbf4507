-- ===== src/Vm.antt =====
-- The state of the micro-VMs that src/vm/state.rs keeps on disk.
pub mod Fields
pub mod Config
pub mod Nonces
pub mod Tests
