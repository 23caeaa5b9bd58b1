-- ===== src/Lib.antt =====
-- ctru-rt: the parts of the runtime that pack, check and hand over words.
--
-- The runtime (Rust, for the Nintendo 3DS) talks to the kernel by supervisor calls and to services
-- by messages in the command buffer of the thread local storage. Above these two stand handles,
-- shared memory, the heap, synchronisation and the services. The state of everything outside, the
-- kernel with its registers and the memory of the command buffer, is a parameter, the record
-- `Machine` of Machine.antt: `svc` takes the number and the argument registers of a call and gives
-- the registers after it. Code that calls it is a function from that state to an outcome and a
-- state; an outcome is a value, an `ErrorCode` or a panic. Integers are natural numbers, with the
-- wrap-around of their width written out.
--
-- - Base: numbers, lists, words, and `|` and `&` as arithmetic.
-- - Syn: the operations of a `ParseStream` of syn, a parameter of the macros that parse with them.
-- - EnumCast: what `derive(EnumCast)` takes and emits (ctru-rt-macros/src/enum_cast.rs). The input is
--   taken as syn has parsed it.
-- - SvcSpec, IpcCall: how the macros `svc!` and `ipc_call!` parse their input and what they emit
--   (ctru-rt-macros/src/svc_spec.rs, ctru-rt-macros/src/ipc_call.rs).
-- - Codes: `ResultCode` and `ErrorCode` (src/result.rs), one file for each enum.
-- - Machine, Svc: the supervisor calls (src/svc.rs) and timeouts.
-- - Ipc: header, writer, reader, translate parameters and requests (src/ipc/mod.rs,
--   src/ipc/request.rs, src/ipc/reply.rs). A pointer into the command buffer is an index, and the
--   buffer a list of words; `parameter`, `dispatch` and the others keep their names.
-- - Tls: the static buffer descriptors (src/tls.rs).
-- - Os: handles, the numbers of memory calls, resource limits, and the mapper of shared memory
--   (src/os/mod.rs, src/os/mem.rs, src/os/reslimit.rs, src/os/sharedmem.rs), whose state is its
--   `next_candidate`. Os/Sharedmem/Regions is the interface of a kernel that knows which regions are
--   mapped, and Os/Sharedmem/Disjoint runs `map` and `unmap` over it.
-- - Alloc: layouts, and the allocators that are parameters of the parts which allocate.
-- - Heap: `heap::init` and `PageAlignedBuffer` (src/heap.rs), over the two statics and the
--   allocator, in a build without debug assertions.
-- - Thread: the memory of a thread, `spawn` and `join` (src/thread.rs); Thread/Lifecycle runs a
--   thread and its joining as steps, and Thread/Balance follows what both take of the allocator.
-- - Env, Debug: the list of arguments (src/env.rs) and the writer of fixed size (src/debug.rs).
-- - Sync: events, `AtomicHandle`, `OsMutex` and `StickyEvent` (src/sync.rs). Sync/Threads runs
--   `get_or_init` on any number of threads, each atomic access a step; Sync/StickyThreads runs the
--   calls of a sticky event so, each use of its lock and of the address arbiter a step. The lock is a
--   parameter, which does not share itself between a writer and a reader.
-- - Srv: the client of the service manager (src/ports/srv.rs). Srv/Registry is the interface of a
--   service manager that keeps a registry of names, and what a client should get from it.
-- - Gsp: the GPU service (src/services/gsp/gpu.rs). Shared memory is a function from word indices;
--   what the GSP writes between the accesses of an attempt is a schedule.
-- - Services: the applet, wireless, sockets and input services (src/services/apt.rs,
--   src/services/ac.rs, src/services/soc.rs, src/services/hid/mod.rs); Errf: the error port
--   (src/ports/errf.rs). A service is its handle and what it owns; destructors are written out where
--   they run.
-- - Graphics: the framebuffers in video memory and their presentation (src/graphics/mod.rs).
-- - Start: `_ctru_rt_start` (src/lib.rs) and what the attribute `entry` takes
--   (ctru-rt-macros/src/entry.rs). Os/Cfgmem: the configuration memory (src/os/cfgmem.rs).
-- - Tests: the theorems at concrete inputs.
--
-- Fuel: the search for free address space runs on `end + 1` rounds, as each round moves the address
-- on by a region that is not empty. The loops on the header words run on the schedule, one turn for
-- each interference and one more. The loop of `wait_event` runs on fuel, of which one more than the
-- count in the header, at most 256, is enough while the GSP is quiet.
-- The iterator over the arguments looks for a zero byte on fuel, of which more than the length of
-- the longest argument is enough, and is run for one round more than there are arguments. The
-- wait for the screen's interrupt runs over a list of rounds, since nothing bounds it.
--
-- Not modelled: the tokens that `svc!` and `derive(EnumCast)` print, of which only the effect is, and
-- the effect of what the macro for IPC calls prints, which does not type-check; the allocators, syn,
-- the locks of the spin crate, the formatting of `core::fmt` and the `log` crate, which are
-- libraries; the assembly before the start; the build and the examples.
pub mod Base
pub mod EnumCast
pub mod Codes
pub mod Machine
pub mod Svc
pub mod Syn
pub mod SvcSpec
pub mod Ipc
pub mod IpcCall
pub mod Tls
pub mod Os
pub mod Alloc
pub mod Heap
pub mod Thread
pub mod Env
pub mod Debug
pub mod Sync
pub mod Srv
pub mod Gsp
pub mod Tests
pub mod Services
pub mod Errf
pub mod Graphics
pub mod Start
