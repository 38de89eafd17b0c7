-- ===== src/Tests.antt =====
-- Runs of the definitions, and the theorems at concrete inputs.
mod Marshalling
mod Wire
mod Handlers
mod Stubs
mod Loop
mod Session
mod Network
mod Paths
mod Memory
mod Sample
mod Service
mod Serving
mod Sequence
mod Interpose
mod Malformed
