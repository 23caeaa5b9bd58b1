-- ===== src/Ipc/Client.antt =====
-- What a client does with a request: it builds it in the command buffer, sends it to its service
-- and reads the reply (src/ipc/request.rs and src/ipc/reply.rs).
use ctru_rt.Base.{ℕ, Bool, List, Outcome}
use ctru_rt.Machine.{Machine, Sys, ◌>>=◌, pure, lift}
use ctru_rt.Ipc.Reply
use ctru_rt.Ipc.Reply.{CommandBufferReader}
use ctru_rt.Ipc.Translate.{decode_owned_handle}
use ctru_rt.Ipc.Request.{State, IpcRequest, send}

-- A request from what the command buffer holds, and its dispatch.
abbrev pub ask :
    {W : Type 0}
    → Machine W
    → {s : State} → ℕ
    → (List ℕ → Outcome (IpcRequest s))
    → Sys W CommandBufferReader
ask m handle request w = send m (request (m.command_buffer w)) handle w

abbrev pub no_reply : {W : Type 0} → CommandBufferReader → Sys W (Unit {0})
no_reply reply = pure tt

-- `finish_results().read_handle()`
abbrev pub read_handle : {W : Type 0} → Bool → CommandBufferReader → Sys W ℕ
read_handle debug reply =
    lift (decode_owned_handle debug reply) >>= λ (p : ℕ × CommandBufferReader). pure p.0

abbrev pub read_word : {W : Type 0} → CommandBufferReader → Sys W ℕ
read_word reply = lift (Reply.read_word reply) >>= λ (p : ℕ × CommandBufferReader). pure p.0
