-- ===== src/Sync.antt =====
-- src/sync.rs: events, the lazily created handle of a mutex, the mutex, the address arbiter and
-- the sticky event.
pub mod Event
pub mod AtomicHandle
pub mod Mutex
pub mod StickyEvent
pub mod Threads
pub mod StickyThreads
