-- ===== src/Seccomp.antt =====
-- src/seccomp.rs: the filters that a sandboxed process runs under.
pub mod Kernel
pub mod Numbers
pub mod Lists
pub mod Setup
pub mod Filters
pub mod Chains
pub mod Policy
pub mod Installed
pub mod Strict
pub mod Stages
pub mod Baseline
pub mod Profiles
pub mod Summary
pub mod Memory
mod Tests
