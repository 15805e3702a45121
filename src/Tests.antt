-- ===== src/Tests.antt =====
-- Runs of the models on concrete inputs, and the theorems applied to them.
mod Clock
mod Owners
mod Mutexes
mod Threads
mod Stores
mod Pictures
mod Sorting
mod Lifecycle
mod Maps
mod Network
mod Threading
mod Signals
mod Startup
