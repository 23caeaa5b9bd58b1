-- ===== src/Ipc/Writer.antt =====
-- `CommandBuffer` and `CommandBufferWriter`. The buffer is the list of the words that
-- `CommandBuffer::range` covers; a pointer into it is the number of words from its start.
use ctru_rt.Base.{ℕ, ◌+◌, List, [], ◌∷◌, ltb, if◌then◌else◌, set, Outcome, ok, panic, ◌>>=◌}

abbrev pub command_buffer_length : ℕ
command_buffer_length = 0x80

pub record CommandBufferWriter : Type 0 where
  pub buf : List ℕ
  pub end_ptr : ℕ

-- `CommandBufferWriter::new`
unfoldable pub new : List ℕ → CommandBufferWriter
new buf = record { buf = buf; end_ptr = 0 }

unfoldable pub advance : CommandBufferWriter → CommandBufferWriter
advance w = record w { end_ptr = w.end_ptr + 1 }

unfoldable pub write : ℕ → CommandBufferWriter → Outcome CommandBufferWriter
unfolding advance
write arg w =
    if ltb w.end_ptr command_buffer_length
    then ok (advance (record w { buf = set w.buf w.end_ptr arg }))
    else panic

-- The loops that write one word after another.
unfoldable pub write_all : List ℕ → CommandBufferWriter → Outcome CommandBufferWriter
write_all [] w = ok w
write_all (arg ∷ args) w = write arg w >>= write_all args

unfoldable pub pos : CommandBufferWriter → ℕ
pos w = w.end_ptr

unfoldable pub finish : CommandBufferWriter → List ℕ
finish w = w.buf
