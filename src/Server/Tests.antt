-- ===== src/Server/Tests.antt =====
-- The theorems at concrete states.
mod Accounts
mod Paths
mod Permission
mod Uploads
mod Shares
mod Restart
mod Removal
mod Remote
mod Lock
mod Frame
mod Main
mod Copy
mod Renew
