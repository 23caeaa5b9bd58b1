-- ===== src/Svc.antt =====
-- The wrappers of src/svc.rs round the supervisor calls, with the expansion of the macro `svc!`
-- (ctru-rt-macros/src/svc_spec.rs): argument `i` goes to register r`i`, `_` leaves it unset, r0
-- is the result code after the call and the outputs are read from r1 on.
pub mod System
pub mod Timeout
pub mod Calls
pub mod Waiting
pub mod Registers
