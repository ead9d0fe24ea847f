-- ===== src/Server.antt =====
-- server/server.go: the handlers and their helpers, over any operating system.
pub mod Account
pub mod Files
pub mod Sharing
pub mod Handlers
pub mod Paths
pub mod Session
pub mod Confine
pub mod Permission
pub mod Signup
pub mod FreeName
pub mod Share
pub mod Lend
pub mod Renew
pub mod Release
pub mod Dedup
pub mod Removal
pub mod Upload
pub mod Login
pub mod Enrol
pub mod Invariant
pub mod Lifecycle
pub mod Restart
pub mod Methods
pub mod Run
pub mod Frame
pub mod Counter
pub mod Guard
pub mod Concurrent
pub mod Main
mod Tests
