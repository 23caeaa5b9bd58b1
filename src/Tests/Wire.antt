-- ===== src/Tests/Wire.antt =====
-- Requests, headers and codes at concrete words.
use ctru_rt.Base.{
  ℕ, ◌+◌, ◌-◌, ◌*◌, ◌/◌, ◌%◌, ◌^◌, ◌≤◌, ◌<◌, List, [], ◌∷◌, ◌≡◌, ◌≢◌, ◌⊎◌, refl, arith, Outcome, ok,
  err, panic, Result, okay, fail, Bool, replicate, take, ◌>>=◌, length,
}
use ctru_rt.Base
use ctru_rt.Base.{bit_and, All}
use ctru_rt.Codes.Level.{Level}
use ctru_rt.Codes.Summary.{Summary}
use ctru_rt.Codes.Origin.{Module}
use ctru_rt.Codes.Description
use ctru_rt.Codes.ResultCode
use ctru_rt.Codes.Packing.{fields-new}
use ctru_rt.Codes.Level
use ctru_rt.Codes.Summary
use ctru_rt.Codes.Origin
use ctru_rt.Codes.Debug.{
  known, match_field, value_field, level_field, module_field, summary_field, description_field,
  debug_result_code, debug_error_code, debug-new,
}
use ctru_rt.Ipc.Header
use ctru_rt.Ipc.Writer
use ctru_rt.Ipc.Writer.{CommandBufferWriter}
use ctru_rt.Ipc.Translate
use ctru_rt.Ipc.Translate.{StaticBuffer}
use ctru_rt.Ipc.Request.{IpcRequest, translate, command, parameters, translate_parameter, message}
use ctru_rt.Ipc.Marshal.{marshal}
use ctru_rt.Ipc.Handles.{encode_borrowed_handle-Writes, decode-encode}
use ctru_rt.Tls.{static_buffer_descriptors, descriptor_address}
use ctru_rt.Tls.Overlap.{word_address, write-overlaps}

abbrev buffer : List ℕ
buffer = replicate 128 0

marshal_example :
    (r : IpcRequest translate) × ((parameters (7 ∷ []) (command buffer 0x16)
        >>= translate_parameter (Translate.encode_borrowed_handle 9))
      ≡ ok r)
    × (take 4 (message r) ≡ Header.new 0x16 1 2 ∷ 7 ∷ 0 ∷ 9 ∷ [])
marshal_example =
    marshal buffer 0x16 (7 ∷ []) (0 ∷ 9 ∷ []) (Translate.encode_borrowed_handle 9)
      (encode_borrowed_handle-Writes 9) refl (omega arith)

decode-encode_example :
    (w : CommandBufferWriter) × (Translate.encode_owned_handles
        (5 ∷ 6 ∷ [])
        (record { buf = buffer; end_ptr = 1 })
      ≡ ok w)
    × (Translate.decode_owned_handles Bool.true 2 (record { cmdbuf = w.buf; read_ptr = 1 })
        ≡ ok (5 ∷ 6 ∷ [], record { cmdbuf = w.buf; read_ptr = w.end_ptr }))
decode-encode_example =
    decode-encode (5 ∷ 6 ∷ []) buffer 1 Bool.true refl (ground arith) (omega arith) (omega arith)
      (omega arith)

fields-new_example :
    (ResultCode.level (ResultCode.new Level.fatal Summary.internal Module.application 1011)
      ≡ okay Level.fatal)
    × (ResultCode.summary (ResultCode.new Level.fatal Summary.internal Module.application 1011)
        ≡ okay Summary.internal)
    × (ResultCode.module_of (ResultCode.new Level.fatal Summary.internal Module.application 1011)
        ≡ okay Module.application)
    × (ResultCode.description (ResultCode.new Level.fatal Summary.internal Module.application 1011)
        ≡ Description.from_value (1011 % 2 ^ 10))
fields-new_example = fields-new Level.fatal Summary.internal Module.application 1011

write-overlaps_example :
    (word_address 0x1000 70 ≡ descriptor_address (static_buffer_descriptors 0x1000) 3)
    × (word_address 0x1000 71 ≡ descriptor_address (static_buffer_descriptors 0x1000) 3 + 4)
    × (Writer.write 8 (record { buf = buffer; end_ptr = 70 })
        ≡ ok (record { buf = Base.set buffer 70 8; end_ptr = 71 }))
    × (Writer.write 8 (record { buf = buffer; end_ptr = 71 })
        ≡ ok (record { buf = Base.set buffer 71 8; end_ptr = 72 }))
write-overlaps_example = write-overlaps 0x1000 3 8 buffer (omega arith)

abbrev internal_code : ℕ
internal_code = ResultCode.new Level.fatal Summary.internal Module.application 1011

abbrev arm_value : Bool → ℕ
arm_value Bool.false = 3
arm_value Bool.true = 8

packed_open : ResultCode.new Level.fatal Summary.internal Module.application 1011 ≢ 0
unfolding ResultCode.new Level.to_value Summary.to_value Origin.to_value
packed_open = λ p. ground arith

debug-new_example :
    (debug_result_code (ResultCode.new Level.fatal Summary.internal Module.application 1011)
      ≡ value_field (ResultCode.new Level.fatal Summary.internal Module.application 1011)
        ∷ level_field (known Level.fatal)
        ∷ module_field (known Module.application)
        ∷ summary_field (known Summary.internal)
        ∷ description_field (match_field (Description.from_value (1011 % 2 ^ 10)))
        ∷ [])
    × (debug_error_code (ResultCode.new Level.fatal Summary.internal Module.application 1011)
        ≡ debug_result_code (ResultCode.new Level.fatal Summary.internal Module.application 1011))
debug-new_example = debug-new Level.fatal Summary.internal Module.application 1011 packed_open
