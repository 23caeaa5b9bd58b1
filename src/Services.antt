-- ===== src/Services.antt =====
-- The clients of the system's services (src/services), beside that of the GPU, which is Gsp.
pub mod Apt
pub mod Ac
pub mod Soc
pub mod Hid
