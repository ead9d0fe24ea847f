-- ===== src/Rpc.antt =====
-- lib/support/rpc: remote calls.
pub mod Reflect
pub mod Dispatch
pub mod Register
pub mod Serve
pub mod Preserve
pub mod Remote
pub mod Lock
pub mod Start
pub mod Pool
