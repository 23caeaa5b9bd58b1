-- ===== src/Ipc/Exchange.antt =====
-- A request of normal parameters and its reply, as one exchange of words with the service.
use ctru_rt.Base.{
  ℕ, ◌+◌, ◌≤◌, ◌≡◌, refl, arith, List, [], ◌∷◌, length, take, length-take, get_or, Outcome, ok, err,
  ◌==◌, if◌then◌else◌,
}
use ctru_rt.Machine.{Machine, word}
use ctru_rt.Ipc.Header
use ctru_rt.Ipc.Writer
use ctru_rt.Ipc.Writer.{command_buffer_length}
use ctru_rt.Ipc.WriterLaws.{set_all, take-set_all, write_all-ok}
use ctru_rt.Ipc.Marshal.{set-head}
use ctru_rt.Ipc.Reply.{CommandBufferReader}
use ctru_rt.Ipc.Client.{ask}
use ctru_rt.Ipc.Dispatch.{dispatch_lem}
use ctru_rt.Ipc.Request.{State, IpcRequest, command, parameters, message, send}

module _ (buf ps : List ℕ) (id : ℕ) where
  abbrev request : IpcRequest State.normal
  request = record {
    cmdbuf = record { buf = set_all buf 1 ps; end_ptr = 1 + length ps };
    param_words = length ps;
    translate_param_words = 0;
    id = id;
  }

  request-ok : 1 + length ps ≤ command_buffer_length → parameters ps (command buf id) ≡ ok request
  unfolding parameters command Writer.new Writer.advance
  request-ok h = ground (arith, write_all-ok ps buf 1)

  message-request :
      length buf ≡ command_buffer_length
      → 1 + length ps ≤ command_buffer_length
      → take (1 + length ps) (message request) ≡ Header.new id (length ps) 0 ∷ ps
  unfolding message Writer.finish
  message-request l h =
      set-head (set_all buf 1 ps) ps (1 + length ps) _ (take 1 buf) (omega arith)
        (take-set_all ps buf 1 (1 + length ps) refl (omega arith))
        (omega (arith, length-take 1 buf))

-- What the client makes of the kernel's answer: an error of the call, an error in the reply, or
-- the reply behind the result.
abbrev pub received : {W : Type 0} → Machine W → (ℕ → ℕ) × W → Outcome CommandBufferReader × W
received m (r, w') =
    if r 0 == 0
    then if get_or (m.command_buffer w') 1 0 == 0
      then (ok (record { cmdbuf = m.command_buffer w'; read_ptr = 2 }), w')
      else (err (get_or (m.command_buffer w') 1 0), w')
    else (err (r 0), w')

-- Where the words fit, the message begins with the header and the parameters, and the client
-- returns what it makes of the answer to it.
pub ask-parameters :
    {W : Type 0} (m : Machine W) (ps : List ℕ) (id client : ℕ) (w : W)
    → 1 + length ps ≤ command_buffer_length
    → length (m.command_buffer w) ≡ command_buffer_length
    → (msg : List ℕ) × (take (1 + length ps) msg ≡ Header.new id (length ps) 0 ∷ ps)
      × (ask m client (λ buf. parameters ps (command buf id)) w
          ≡ received m (m.svc 0x32 (word client ∷ []) (m.store_command_buffer msg w)))
unfolding send
ask-parameters m ps id client w h l =
    let buf = m.command_buffer w in
    let r = request buf ps id in
    (
      message r,
      message-request buf ps id l h,
      rw (request-ok buf ps id h) (ground (arith, dispatch_lem m r client w)),
    )
