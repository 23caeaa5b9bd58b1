-- ===== src/Gsp/Registers/Laws.antt =====
-- The words of a register write.
use ctru_rt.Base.{ℕ, List, [], ◌∷◌, ◌≡◌, arith, ok, take, length}
use ctru_rt.Ipc.Header
use ctru_rt.Ipc.Writer.{command_buffer_length}
use ctru_rt.Ipc.Translate.{static_buffer_header, encode_static_buffer}
use ctru_rt.Ipc.Request.{IpcRequest, translate, message}
use ctru_rt.Ipc.Marshal.{Writes, marshal}
use ctru_rt.Ipc.Handles.{write_two}
use ctru_rt.Gsp.Registers.{one_word, register_request}

one_word-Writes :
    (address value : ℕ)
    → Writes (encode_static_buffer (one_word address value 0)) (0x4002 ∷ address ∷ [])
unfolding encode_static_buffer static_buffer_header
one_word-Writes address value w = write_two 0x4002 address w

-- Over a whole command buffer the request of a register write is built, and the message is command
-- 1 with the register, the size of 4 bytes and a static buffer of index 0, whose size is 1.
pub register_message :
    (buf : List ℕ) (register_offset value_address value : ℕ)
    → length buf ≡ command_buffer_length
    → (r : IpcRequest translate) × (register_request buf register_offset value_address value ≡ ok r)
      × (take 5 (message r) ≡ Header.new 1 2 2 ∷ register_offset ∷ 4 ∷ 0x4002 ∷ value_address ∷ [])
unfolding register_request
register_message buf register_offset value_address value l =
    marshal buf 1 (register_offset ∷ 4 ∷ []) (0x4002 ∷ value_address ∷ [])
      (encode_static_buffer (one_word value_address value 0)) (one_word-Writes value_address value)
      l (omega arith)
