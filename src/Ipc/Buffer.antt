-- ===== src/Ipc/Buffer.antt =====
-- `CommandBuffer` of src/ipc/mod.rs, the address of its first word: the range of addresses by which
-- the writer and the reader check their pointers.
use ctru_rt.Base.{ℕ, ◌+◌, ◌*◌, ◌≡◌, arith, Bool, ltb, leb, ◌&&◌}
use ctru_rt.Tls
use ctru_rt.Ipc.Writer.{command_buffer_length}

-- `CommandBuffer::get`, from the address of the thread local storage.
unfoldable pub get : ℕ → ℕ
unfolding Tls.command_buffer
get thread_local_storage = Tls.command_buffer thread_local_storage

unfoldable pub start : ℕ → ℕ
start buffer = buffer

unfoldable pub into_inner : ℕ → ℕ
into_inner buffer = buffer

-- A range of pointers, its end excluded.
pub record Range : Type 0 where
  pub from : ℕ
  pub end : ℕ

-- `start().add(COMMAND_BUFFER_LENGTH)`; a word has four bytes.
unfoldable pub range : ℕ → Range
unfolding start
range buffer = record { from = start buffer; end = start buffer + 4 * command_buffer_length }

unfoldable pub contains : Range → ℕ → Bool
contains r pointer = leb r.from pointer && ltb pointer r.end

-- The pointer to word `i` is in the range just where `i` is below the number of words, which is the
-- test of the writer and the reader.
pub contains-range :
    (buffer i : ℕ) → contains (range buffer) (buffer + 4 * i) ≡ ltb i command_buffer_length
unfolding contains range start
contains-range buffer i = ground arith
