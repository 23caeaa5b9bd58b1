-- ===== src/Ipc.antt =====
-- Inter-process communication (src/ipc/mod.rs, src/ipc/request.rs, src/ipc/reply.rs): the header,
-- writing a request, the translate parameters, reading a reply; then what is proved of them.
pub mod Header
pub mod Writer
pub mod Translate
pub mod Reply
pub mod Request
pub mod HeaderLaws
pub mod WriterLaws
pub mod Marshal
pub mod Handles
pub mod Dispatch
pub mod Exchange
pub mod Client
pub mod Buffer
pub mod Values
