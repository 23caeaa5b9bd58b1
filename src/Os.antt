-- ===== src/Os.antt =====
-- src/os: memory operations, resource limits, handles and the shared memory mapper.
pub mod Mem
pub mod Reslimit
pub mod Cfgmem
pub mod Handle
pub mod Sharedmem
