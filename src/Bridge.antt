-- ===== src/Bridge.antt =====
-- src/bridge.rs: the seccomp allowlists of the helper processes that carry a sandbox's traffic.
pub mod Numbers
pub mod Groups
pub mod Filters
pub mod Permits
pub mod Allowlists
pub mod Verdict
mod Tests
