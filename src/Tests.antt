-- ===== src/Tests.antt =====
-- The development's theorems at concrete inputs of the dashboard and the server.
mod Guarding
mod Signing
mod Tokens
mod Applications
mod Stream
mod Streams
mod Requests
mod Emergencies
mod Allowances
mod Sessions
mod Firings
mod Windows
