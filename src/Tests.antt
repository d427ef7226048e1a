-- ===== src/Tests.antt =====
-- The code on concrete inputs: cases of the Go tests, and each theorem at an input that meets its
-- hypotheses.
mod World
mod Server
mod Redis
mod Permissions
mod Memory
mod Helios
mod Client
mod Coalescing
mod Interleaving
mod LateCalls
mod Requests
mod Factory
mod Codegen
