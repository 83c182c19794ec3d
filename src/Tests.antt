-- ===== src/Tests.antt =====
-- The theorems at concrete inputs, and runs of the definitions.
mod Frames
mod Texts
mod Caches
mod Sockets
mod Requests
mod Writes
mod Rests
mod Clients
mod Stores
mod Links
mod Users
mod Logins
