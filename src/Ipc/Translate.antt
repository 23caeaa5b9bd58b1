-- ===== src/Ipc/Translate.antt =====
-- The implementations of `TranslateParameter` and `TranslateResult` in src/ipc/mod.rs. A handle is
-- its raw number; an array `[_; N]` is a list of length N.
use ctru_rt.Base.{ℕ, zero, suc, ◌+◌, ◌-◌, ◌^◌, List, [], ◌∷◌, length, leb, ◌==◌, if◌then◌else◌}
use ctru_rt.Base.{Bool, not, ◌&&◌, bit_or, ◌<<◌, ◌>>◌, Outcome, ok, panic, ◌>>=◌, none, some}
use ctru_rt.Codes.ResultCode
use ctru_rt.Ipc.Writer
use ctru_rt.Ipc.Writer.{CommandBufferWriter}
use ctru_rt.Ipc.Reply
use ctru_rt.Ipc.Reply.{CommandBufferReader}

abbrev pub type_handle : ℕ
type_handle = 0 << 1

abbrev pub type_static_buffer : ℕ
type_static_buffer = 1 << 1

abbrev pub flag_move_handle : ℕ
flag_move_handle = 1 << 4

abbrev pub flag_replace_pid : ℕ
flag_replace_pid = 1 << 5

-- A parameter as what `encode` does to the writer.
abbrev pub TranslateParameter : Type 0
TranslateParameter = CommandBufferWriter → Outcome CommandBufferWriter

-- `[OwnedHandle; N]`; each handle is leaked, so none is closed.
unfoldable pub encode_owned_handles : List ℕ → TranslateParameter
encode_owned_handles [] cmdbuf = ok cmdbuf
encode_owned_handles (h ∷ hs) cmdbuf =
    Writer.write (bit_or (bit_or ((length (h ∷ hs) - 1) << 26) flag_move_handle) type_handle) cmdbuf
    >>= Writer.write_all (h ∷ hs)

unfoldable pub encode_owned_handle : ℕ → TranslateParameter
encode_owned_handle handle = encode_owned_handles (handle ∷ [])

-- `[BorrowedHandle; N]`
unfoldable pub encode_borrowed_handles : List ℕ → TranslateParameter
encode_borrowed_handles [] cmdbuf = ok cmdbuf
encode_borrowed_handles (h ∷ hs) cmdbuf =
    Writer.write (bit_or ((length (h ∷ hs) - 1) << 26) type_handle) cmdbuf
    >>= Writer.write_all (h ∷ hs)

unfoldable pub encode_borrowed_handle : ℕ → TranslateParameter
encode_borrowed_handle handle cmdbuf = Writer.write type_handle cmdbuf >>= Writer.write handle

-- `ThisProcessId`
unfoldable pub encode_this_process_id : TranslateParameter
encode_this_process_id cmdbuf =
    Writer.write (bit_or flag_replace_pid type_handle) cmdbuf >>= Writer.write 0

-- The slice is its address and its words.
pub record StaticBuffer : Type 0 where
  pub source_ptr : ℕ
  pub source : List ℕ
  pub target_id : ℕ

unfoldable pub static_buffer_header : StaticBuffer → ℕ
static_buffer_header b =
    bit_or (bit_or (length b.source << 14) (b.target_id << 10)) type_static_buffer

unfoldable pub encode_static_buffer : StaticBuffer → TranslateParameter
encode_static_buffer b cmdbuf =
    if leb 16 b.target_id
    then panic
    else if leb (2 ^ 16) (length b.source)
    then panic
    else Writer.write (static_buffer_header b) cmdbuf >>= Writer.write b.source_ptr

-- `n` times `OwnedHandle::new(cmdbuf.read()).expect(…)`
unfoldable pub read_handles : ℕ → CommandBufferReader → Outcome (List ℕ × CommandBufferReader)
read_handles zero r = ok ([], r)
read_handles (suc n) r = Reply.read r >>= λ (p : ℕ × CommandBufferReader).
    elim (ResultCode.non_zero p.0) [
      | none ↦ panic
      | some handle ↦
          read_handles n p.1 >>= λ (q : List ℕ × CommandBufferReader). ok (handle ∷ q.0, q.1)
    ]

-- `[OwnedHandle; N]::decode`; `debug_assert_eq!` is the argument `debug`.
unfoldable pub decode_owned_handles :
    Bool → ℕ → CommandBufferReader → Outcome (List ℕ × CommandBufferReader)
decode_owned_handles debug zero r = ok ([], r)
decode_owned_handles debug (suc n) r = Reply.read r >>= λ (p : ℕ × CommandBufferReader).
    if debug && not ((p.0 >> 26) + 1 == suc n) then panic else read_handles (suc n) p.1

unfoldable pub decode_owned_handle : Bool → CommandBufferReader → Outcome (ℕ × CommandBufferReader)
decode_owned_handle debug r = Reply.read r >>= λ (p : ℕ × CommandBufferReader).
    if debug && not ((p.0 >> 26) + 1 == 1)
    then panic
    else Reply.read p.1 >>= λ (q : ℕ × CommandBufferReader). elim (ResultCode.non_zero q.0) [
      | none ↦ panic
      | some handle ↦ ok (handle, q.1)
    ]
