-- ===== src/Ipc/Header.antt =====
-- `IpcHeader` of src/ipc/mod.rs, the u32 that it wraps.
use ctru_rt.Base.{ℕ, ◌%◌, ◌^◌, bit_and, bit_or, ◌<<◌, ◌>>◌, List, [], ◌∷◌}

unfoldable pub new : ℕ → ℕ → ℕ → ℕ
new command_id normal_param_words translate_param_words =
    bit_or (bit_or (command_id << 16) (bit_and normal_param_words 0x3f << 6))
      (bit_and translate_param_words 0x3f << 0)

-- `as u16` keeps the low sixteen bits.
unfoldable pub command_id : ℕ → ℕ
command_id header = (header >> 16) % 2 ^ 16

unfoldable pub normal_param_words : ℕ → ℕ
normal_param_words header = bit_and (header >> 6) 0x3f

unfoldable pub translate_param_words : ℕ → ℕ
translate_param_words header = bit_and (header >> 0) 0x3f

-- The two `From` implementations: the header is its word.
unfoldable pub from_u32 : ℕ → ℕ
from_u32 v = v

unfoldable pub into_u32 : ℕ → ℕ
into_u32 header = header

-- The fields that `Debug` lists: the code, the command, and the two numbers of words.
unfoldable pub debug_fields : ℕ → List ℕ
unfolding command_id normal_param_words translate_param_words
debug_fields header =
    header ∷ command_id header ∷ normal_param_words header ∷ translate_param_words header ∷ []
