-- ===== src/Gsp.antt =====
-- The GPU service (src/services/gsp/gpu.rs): screens, the interrupt queue and the framebuffer
-- information in shared memory, and the requests to the service.
pub mod Screen
pub mod Events
pub mod EventSets
pub mod Interrupts
pub mod Queue
pub mod Framebuffer
pub mod Registers
pub mod Gpu
