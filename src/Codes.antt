-- ===== src/Codes.antt =====
-- Result codes (src/result.rs): the four enums of their fields, the packed words, and the proofs
-- on packing.
pub mod Level
pub mod Summary
pub mod Origin
pub mod Description
pub mod ResultCode
pub mod ErrorCode
pub mod Packing
pub mod Debug
