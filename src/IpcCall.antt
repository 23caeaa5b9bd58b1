-- ===== src/IpcCall.antt =====
-- The macro for IPC calls (ctru-rt-macros/src/ipc_call.rs): the header word and the code that its
-- builder emits, as a list of statements. A parameter is the word that its expression gives.
pub mod Laws
pub mod Parse
pub mod RoundTrip
use ctru_rt.Base.{
  ℕ, ◌+◌, ◌^◌, List, [], ◌∷◌, ◌++◌, length, ltb, if◌then◌else◌, bit_or, ◌<<◌, Result, okay, fail,
}

-- A translate parameter is written `_`.
pub data TranslateParameter : Type 0 where
  translate_parameter : TranslateParameter

pub record IpcCall : Type 0 where
  pub id : ℕ
  pub params : List ℕ
  pub translate_params : List TranslateParameter

-- The error is a message of the compiler.
unfoldable pub header_code : IpcCall → Result ℕ (Unit {0})
header_code c =
    if ltb (length c.params) (2 ^ 6)
    then okay (bit_or (c.id << 16) (length c.params << 6))
    else fail tt

-- The emitted statements: `buffer.write(header)`, and `buffer.offset(literal).write(parameter)`. They
-- are tokens and are not run: the literal is one of a `usize`, while `offset` takes an `isize`, so
-- that a call with parameters does not type-check; nor does the request behind them, whose handle
-- is `()`.
pub data Statement : Type 0 where
  write : ℕ → Statement
  offset_write : ℕ → ℕ → Statement

pub record IpcBufBuilder : Type 0 where
  pub id : ℕ
  pub word_offset : ℕ
  pub writes : List Statement
  pub normal_params : ℕ
  pub translate_params : ℕ

unfoldable pub new : ℕ → IpcBufBuilder
new id = record { id = id; word_offset = 1; writes = []; normal_params = 0; translate_params = 0 }

unfoldable pub write_word : ℕ → IpcBufBuilder → IpcBufBuilder
write_word value b = record b {
  word_offset = b.word_offset + 1;
  writes = b.writes ++ (offset_write b.word_offset value ∷ []);
}

unfoldable pub params : List ℕ → IpcBufBuilder → IpcBufBuilder
unfolding write_word
params [] b = b
params (p ∷ ps) b =
    let b' = write_word p b in params ps (record b' { normal_params = b'.normal_params + 1 })

-- The emitted code: the header, then the writes.
unfoldable pub build : IpcBufBuilder → List Statement
build b =
    let header = bit_or (bit_or (b.id << 16) (b.normal_params << 6)) (b.translate_params << 0) in
    write header ∷ b.writes

-- The writes of `emit_buf_write`: the translate parameters are not among them.
unfoldable pub emit_buf_write : IpcCall → List Statement
unfolding new params build
emit_buf_write c = build (params c.params (new c.id))
