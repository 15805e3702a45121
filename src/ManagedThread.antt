-- ===== src/ManagedThread.antt =====
-- include/managed-thread.h and src/managed-thread.cpp: one `ManagedThread` object, the thread that it
-- starts, and the threads that manage it.
-- The thread and each of its callers advance a shared access at a time, in any order. What they share
-- is `Shared`; the place of the thread is its `worker` field, as `start` and `join` touch it.
-- No method locks `m_mutex_pause_resume` while it holds it, so the mutex has an owner and no count.
pub mod Worker
pub mod Caller
pub mod System
pub mod Quiet
pub mod Ownership
pub mod Exit
pub mod Handshake
pub mod Deadlock
pub mod Protocol
pub mod Restart
pub mod Unasserted
