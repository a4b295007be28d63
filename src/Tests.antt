-- ===== src/Tests.antt =====
-- The theorems at concrete inputs.
mod Bridge
mod Fixtures
mod Inbound
mod Network
mod Notes
mod Outbound
mod Remotes
mod Server
mod Signing
mod Starts
mod Store
mod Writes
