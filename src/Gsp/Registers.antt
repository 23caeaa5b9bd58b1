-- ===== src/Gsp/Registers.antt =====
-- `init_hardware` and the register writes of src/services/gsp/gpu.rs. A static buffer is a
-- reference to a word of a row of the table, or of the caller: its address is a parameter.
use ctru_rt.Base.{ℕ, ◌+◌, List, [], ◌∷◌, Option, none, some, bit_or, ◌<<◌, Outcome, ok}
use ctru_rt.Base.{◌>>=◌ as ◌>>?◌}
use ctru_rt.Machine.{Machine, Sys, ◌>>=◌, pure}
use ctru_rt.Gsp.Screen.{bottom, dimensions_register}
use ctru_rt.Ipc.Translate.{StaticBuffer, encode_static_buffer}
use ctru_rt.Ipc.Request.{IpcRequest, translate, command, parameters, translate_parameter, send}
pub mod Laws

abbrev pub gpu_reg_base : ℕ
gpu_reg_base = 0x40_0000

-- The rows: an offset, a value, and a mask for those that write only some of the bits.
unfoldable pub init_values : List (ℕ × ℕ × Option ℕ)
init_values =
    (0x1000, 0, none)
    ∷ (0x1080, 0x12345678, none)
    ∷ (0x10C0, 0xFFFFFFF0, none)
    ∷ (0x10D0, 1, none)
    ∷ (0x0400, 0x1C2, none)
    ∷ (0x0404, 0xD1, none)
    ∷ (0x0408, 0x1C1, none)
    ∷ (0x040C, 0x1C1, none)
    ∷ (0x0410, 0, none)
    ∷ (0x0414, 0xCF, none)
    ∷ (0x0418, 0xD1, none)
    ∷ (0x041C, bit_or (0x1C5 << 16) 0x1C1, none)
    ∷ (0x0420, 0x10000, none)
    ∷ (0x0424, 0x19D, none)
    ∷ (0x0428, 2, none)
    ∷ (0x042C, 0x192, none)
    ∷ (0x0430, 0x192, none)
    ∷ (0x0434, 0x192, none)
    ∷ (0x0438, 1, none)
    ∷ (0x043C, 2, none)
    ∷ (0x0440, bit_or (0x196 << 16) 0x192, none)
    ∷ (0x0444, 0, none)
    ∷ (0x0448, 0, none)
    ∷ (0x045C, bit_or (400 << 16) 240, none)
    ∷ (0x0460, bit_or (0x1C1 << 16) 0xD1, none)
    ∷ (0x0464, bit_or (0x192 << 16) 2, none)
    ∷ (0x0470, 0x80340, none)
    ∷ (0x049C, 0, none)
    ∷ (0x0500, 0x1C2, none)
    ∷ (0x0504, 0xD1, none)
    ∷ (0x0508, 0x1C1, none)
    ∷ (0x050C, 0x1C1, none)
    ∷ (0x0510, 0xCD, none)
    ∷ (0x0514, 0xCF, none)
    ∷ (0x0518, 0xD1, none)
    ∷ (0x051C, bit_or (0x1C5 << 16) 0x1C1, none)
    ∷ (0x0520, 0x10000, none)
    ∷ (0x0524, 0x19D, none)
    ∷ (0x0528, 0x52, none)
    ∷ (0x052C, 0x192, none)
    ∷ (0x0530, 0x192, none)
    ∷ (0x0534, 0x4F, none)
    ∷ (0x0538, 0x50, none)
    ∷ (0x053C, 0x52, none)
    ∷ (0x0540, bit_or (0x198 << 16) 0x194, none)
    ∷ (0x0544, 0, none)
    ∷ (0x0548, 0x11, none)
    ∷ (0x055C, dimensions_register bottom, none)
    ∷ (0x0560, bit_or (0x1C1 << 16) 0xD1, none)
    ∷ (0x0564, bit_or (0x192 << 16) 0x52, none)
    ∷ (0x0570, 0x80300, none)
    ∷ (0x059C, 0, none)
    ∷ (0x0468, 0x18300000, none)
    ∷ (0x046C, 0x18300000, none)
    ∷ (0x0568, 0x18300000, none)
    ∷ (0x056C, 0x18300000, none)
    ∷ (0x0494, 0x18300000, none)
    ∷ (0x0498, 0x18300000, none)
    ∷ (0x0478, 1, none)
    ∷ (0x0578, 1, none)
    ∷ (0x0C18, 0, some 0xFF00)
    ∷ (0x0004, 0x70100, none)
    ∷ (0x001C, 0, some 0xFF)
    ∷ (0x002C, 0, some 0xFF)
    ∷ (0x0050, 0x22221200, none)
    ∷ (0x0054, 0xFF2, some 0xFFFF)
    ∷ (0x0474, 0x10501, none)
    ∷ (0x0574, 0x10501, none)
    ∷ []

-- A word behind a reference.
abbrev pub one_word : ℕ → ℕ → ℕ → StaticBuffer
one_word address value target_id = record {
  source = value ∷ [];
  source_ptr = address;
  target_id = target_id;
}

-- The request of `write_graphics_register`, from what the command buffer holds.
unfoldable pub register_request : List ℕ → ℕ → ℕ → ℕ → Outcome (IpcRequest translate)
register_request buf register_offset value_address value =
    parameters (register_offset ∷ 4 ∷ []) (command buf 0x01)
    >>? translate_parameter (encode_static_buffer (one_word value_address value 0))

unfoldable pub masked_request : List ℕ → ℕ → ℕ → ℕ → ℕ → ℕ → Outcome (IpcRequest translate)
masked_request buf register_offset value_address value mask_address mask =
    parameters (register_offset ∷ 4 ∷ []) (command buf 0x02)
    >>? translate_parameter (encode_static_buffer (one_word value_address value 0))
    >>? translate_parameter (encode_static_buffer (one_word mask_address mask 1))

module _ {W : Type 0} (m : Machine W) where
  -- The reply is dropped, the error is not.
  abbrev answered : {A : Type 0} → Sys W A → Sys W (Unit {0})
  answered s = s >>= λ _. pure tt

  unfoldable pub write_graphics_register : ℕ → ℕ → ℕ → ℕ → Sys W (Unit {0})
  write_graphics_register service_handle register_offset value_address value w =
      answered
        (send m (register_request (m.command_buffer w) register_offset value_address value)
          service_handle)
        w

  unfoldable pub write_graphics_register_masked : ℕ → ℕ → ℕ → ℕ → ℕ → ℕ → Sys W (Unit {0})
  write_graphics_register_masked service_handle register_offset value_address value mask_address
        mask w =
      answered
        (send m
          (masked_request (m.command_buffer w) register_offset value_address value mask_address
            mask)
          service_handle)
        w

  -- Where the row of an offset keeps its value and its mask.
  module _ (value_address mask_address : ℕ → ℕ) where
    unfoldable pub write_row : ℕ → ℕ × ℕ × Option ℕ → Sys W (Unit {0})
    write_row service_handle (register_offset, value, none) =
        write_graphics_register service_handle (gpu_reg_base + register_offset)
          (value_address register_offset) value
    write_row service_handle (register_offset, value, some mask) =
        write_graphics_register_masked service_handle (gpu_reg_base + register_offset)
          (value_address register_offset) value (mask_address register_offset) mask

    -- The loop: the first error ends it.
    unfoldable pub write_rows : ℕ → List (ℕ × ℕ × Option ℕ) → Sys W (Unit {0})
    write_rows service_handle [] = pure tt
    write_rows service_handle (row ∷ rows) =
        write_row service_handle row >>= λ _. write_rows service_handle rows

    unfoldable pub init_hardware : ℕ → Sys W (Unit {0})
    unfolding write_rows
    init_hardware service_handle = write_rows service_handle init_values
