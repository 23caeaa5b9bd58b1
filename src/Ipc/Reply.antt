-- ===== src/Ipc/Reply.antt =====
-- `CommandBufferReader` and `IpcReply` of src/ipc/reply.rs. A read past the range panics; inside it
-- the list has all the words (the default of `get_or` is never seen there).
use ctru_rt.Base.{ℕ, ◌+◌, List, ltb, if◌then◌else◌, get_or, Outcome, ok, panic, ◌>>=◌}
use ctru_rt.Ipc.Writer.{command_buffer_length}

pub record CommandBufferReader : Type 0 where
  pub cmdbuf : List ℕ
  pub read_ptr : ℕ

unfoldable pub reader : List ℕ → CommandBufferReader
reader buf = record { cmdbuf = buf; read_ptr = 0 }

unfoldable pub read : CommandBufferReader → Outcome (ℕ × CommandBufferReader)
read r =
    if ltb r.read_ptr command_buffer_length
    then ok (get_or r.cmdbuf r.read_ptr 0, record r { read_ptr = r.read_ptr + 1 })
    else panic

-- `IpcReply::new` skips the header.
unfoldable pub new : List ℕ → Outcome CommandBufferReader
new buf = read (reader buf) >>= λ (p : ℕ × CommandBufferReader). ok p.1

-- `read_word`, and `read_result` for the results that are a word.
unfoldable pub read_word : CommandBufferReader → Outcome (ℕ × CommandBufferReader)
read_word r = read r
