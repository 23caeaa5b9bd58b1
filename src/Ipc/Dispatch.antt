-- ===== src/Ipc/Dispatch.antt =====
-- The three ways a dispatched request ends.
use ctru_rt.Base.{ℕ, ◌≡◌, ◌≢◌, ◌⊎◌, inl, inr, arith, List, [], ◌∷◌, get_or, ℕ_discrete, ok, err}
use ctru_rt.Codes.ResultCode
use ctru_rt.Machine.{Machine, word}
use ctru_rt.Svc.Calls.{svc_unit, send_sync_request}
use ctru_rt.Ipc.Reply
use ctru_rt.Ipc.Request.{State, IpcRequest, message, dispatch_impl, dispatch_no_fail, dispatch}

module _ {W : Type 0} (m : Machine W) {s : State} (r : IpcRequest s) (receiver : ℕ) (w : W) where
  -- What the kernel returns for the message in the command buffer.
  abbrev pub answer : (ℕ → ℕ) × W
  answer = m.svc 0x32 (word receiver ∷ []) (m.store_command_buffer (message r) w)

  abbrev pub reply_buffer : List ℕ
  reply_buffer = m.command_buffer answer.1

  -- A request fails with the kernel's result code, else with the result word behind the header of
  -- the reply; where both are 0 it returns the reply at the word behind these. It never panics,
  -- and makes no other call.
  pub dispatch_lem :
      (answer.0 0 ≢ 0) × (dispatch m r receiver w ≡ (err (answer.0 0), answer.1))
      ⊎ (answer.0 0 ≡ 0)
        × (get_or reply_buffer 1 0 ≢ 0)
        × (dispatch m r receiver w ≡ (err (get_or reply_buffer 1 0), answer.1))
      ⊎ (answer.0 0 ≡ 0)
        × (get_or reply_buffer 1 0 ≡ 0)
        × (dispatch m r receiver w
            ≡ (ok (record { cmdbuf = reply_buffer; read_ptr = 2 }), answer.1))
  unfolding dispatch dispatch_no_fail dispatch_impl send_sync_request svc_unit
      ResultCode.into_result Reply.new Reply.read Reply.read_word Reply.reader
  dispatch_lem = elim (ℕ_discrete (answer.0 0) 0) [
    | no sent ↦ inl (sent, ground arith)
    | yes sent ↦ elim (ℕ_discrete (get_or reply_buffer 1 0) 0) [
      | no bad ↦ inr (inl (sent, bad, ground arith))
      | yes good ↦ inr (inr (sent, good, ground arith))
    ]
  ]
