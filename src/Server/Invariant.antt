-- ===== src/Server/Invariant.antt =====
-- The invariant of the server's tables, and the facts about each table that its proof needs.
pub mod Users
pub mod Files
pub mod Shares
pub mod Sound
pub mod Uploads
pub mod Accounts
pub mod Grants
pub mod Requests
