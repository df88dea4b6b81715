-- ===== src/Tests.antt =====
-- The theorems at concrete inputs.
mod Uris
mod Queries
mod Channels
mod Streams
mod Names
mod Pool
mod Faults
mod Files
mod Network
mod Processes
mod Handles
mod Dispatching
mod Temps
