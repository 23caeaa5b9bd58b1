-- ===== src/Ipc/Request.antt =====
-- `IpcRequest` of src/ipc/request.rs and its dispatch.
use ctru_rt.Base.{ℕ, ◌+◌, ◌-◌, List, length, set, Outcome, ok, err, panic}
use ctru_rt.Base.{◌>>=◌ as ◌>>?◌}
use ctru_rt.Codes.ResultCode
use ctru_rt.Machine.{Machine, Sys, ◌>>=◌, lift}
use ctru_rt.Svc.Calls.{send_sync_request}
use ctru_rt.Ipc.Header
use ctru_rt.Ipc.Writer
use ctru_rt.Ipc.Writer.{CommandBufferWriter}
use ctru_rt.Ipc.Translate.{TranslateParameter}
use ctru_rt.Ipc.Reply
use ctru_rt.Ipc.Reply.{CommandBufferReader}

-- The typestate of a request: normal parameters are refused after a translate parameter.
pub data State : Type 0 where
  normal translate : State

pub record IpcRequest (state : State) : Type 0 where
  pub cmdbuf : CommandBufferWriter
  pub param_words : ℕ
  pub translate_param_words : ℕ
  pub id : ℕ

-- `buf` is what `CommandBuffer::get` finds; the first word is left for the header.
unfoldable pub command : List ℕ → ℕ → IpcRequest normal
command buf id = record {
  cmdbuf = Writer.advance (Writer.new buf);
  param_words = 0;
  translate_param_words = 0;
  id = id;
}

unfoldable pub parameter : ℕ → IpcRequest normal → Outcome (IpcRequest normal)
parameter word r = Writer.write word r.cmdbuf >>? λ (w : CommandBufferWriter).
    ok (record r { cmdbuf = w; param_words = r.param_words + 1 })

unfoldable pub parameters : List ℕ → IpcRequest normal → Outcome (IpcRequest normal)
parameters words r = Writer.write_all words r.cmdbuf >>? λ (w : CommandBufferWriter).
    ok (record r { cmdbuf = w; param_words = r.param_words + length words })

unfoldable pub translate_parameter :
    {s : State} → TranslateParameter → IpcRequest s → Outcome (IpcRequest translate)
translate_parameter encode r = encode r.cmdbuf >>? λ (w : CommandBufferWriter). ok (record {
  cmdbuf = w;
  param_words = r.param_words;
  translate_param_words = r.translate_param_words + (w.end_ptr - r.cmdbuf.end_ptr);
  id = r.id;
})

-- The words that `dispatch_impl` hands to the kernel: the header is written last.
unfoldable pub message : {s : State} → IpcRequest s → List ℕ
message r = set (Writer.finish r.cmdbuf) 0 (Header.new r.id r.param_words r.translate_param_words)

module _ {W : Type 0} (m : Machine W) where
  unfoldable pub dispatch_impl : {s : State} → IpcRequest s → ℕ → Sys W (ℕ × CommandBufferReader)
  dispatch_impl r receiver = do
    reply_buffer ← send_sync_request m receiver (message r)
    reply ← lift (Reply.new reply_buffer)
    lift (Reply.read_word reply)

  unfoldable pub dispatch_no_fail : {s : State} → IpcRequest s → ℕ → Sys W (ℕ × CommandBufferReader)
  dispatch_no_fail r receiver = dispatch_impl r receiver

  unfoldable pub dispatch : {s : State} → IpcRequest s → ℕ → Sys W CommandBufferReader
  dispatch r receiver w =
      let (result, w') = dispatch_no_fail r receiver w in
      elim result [
        | ok p ↦ elim (ResultCode.into_result p.0) [
          | ok _ ↦ (ok p.1, w')
          | err e ↦ (err e, w')
          | panic ↦ (panic, w')
        ]
        | err e ↦ (err e, w')
        | panic ↦ (panic, w')
      ]

  -- A request that was being built, sent if nothing panicked.
  unfoldable pub send : {s : State} → Outcome (IpcRequest s) → ℕ → Sys W CommandBufferReader
  send request receiver w = elim request [
    | ok r ↦ dispatch r receiver w
    | err e ↦ (err e, w)
    | panic ↦ (panic, w)
  ]
