-- ===== src/Tests.antt =====
-- The theorems at concrete inputs, and runs of the definitions.
mod Data
mod Objects
mod Packets
mod Daemon
mod Period
mod Web
mod Loader
mod Rounds
mod Cadence
mod Network
mod Publish
