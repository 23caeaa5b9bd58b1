-- ===== src/Srv.antt =====
-- src/ports/srv.rs: the client of the service manager. A name is its bytes. `debug` tells whether
-- `debug_assert_eq!` is compiled in.
use ctru_rt.Base.{
  ℕ, zero, suc, ◌+◌, min, Bool, not, ltb, ◌==◌, if◌then◌else◌, bit_or, ◌<<◌, from_le_bytes, Option,
}
use ctru_rt.Base.{List, [], ◌∷◌, length, get_or, take, Outcome, ok, err, panic}
use ctru_rt.Base.{◌>>=◌ as ◌>>?◌}
use ctru_rt.Machine.{Machine, Sys, ◌>>=◌, ◌>>◌, pure, lift, fails, panics, on_error}
use ctru_rt.Codes.ErrorCode
use ctru_rt.Svc.Calls.{connect_to_port}
use ctru_rt.Os.Handle
use ctru_rt.Ipc.Client.{ask, no_reply, read_handle, read_word}
use ctru_rt.Ipc.Reply
use ctru_rt.Ipc.Reply.{CommandBufferReader}
use ctru_rt.Ipc.Translate.{encode_this_process_id, decode_owned_handle}
use ctru_rt.Ipc.Request.{
  State, IpcRequest, command, parameter, parameters, translate_parameter, send,
}
pub mod Laws
pub mod Registry
pub mod Refines

pub data BlockingPolicy : Type 0 where
  blocking non_blocking : BlockingPolicy

unfoldable pub policy_value : BlockingPolicy → ℕ
policy_value blocking = 0
policy_value non_blocking = 1

pub record Srv : Type 0 where
  pub handle : ℕ
  pub blocking_policy : BlockingPolicy

unfoldable pub set_blocking_policy : BlockingPolicy → Srv → Srv
set_blocking_policy policy srv = record srv { blocking_policy = policy }

abbrev pub bool_bit : Bool → ℕ
bool_bit b = if b then 1 else 0

unfoldable pub publish_flags : Bool → Bool → ℕ
publish_flags coalesc_pending ignore_overflow =
    bit_or (bool_bit coalesc_pending) (bool_bit ignore_overflow << 1)

-- The union of two words and eight bytes, zero where the name has no byte.
unfoldable pub write_str_param : List ℕ → (ℕ × ℕ) × ℕ
write_str_param s =
    let n = min 8 (length s) in
    let buf = take n s in
    (
      (
        from_le_bytes (get_or buf 0 0) (get_or buf 1 0) (get_or buf 2 0) (get_or buf 3 0),
        from_le_bytes (get_or buf 4 0) (get_or buf 5 0) (get_or buf 6 0) (get_or buf 7 0),
      ),
      n,
    )

-- The words of a name and more.
abbrev pub name_words : List ℕ → List ℕ → List ℕ
name_words s more = let ((arg0, arg1), len) = write_str_param s in arg0 ∷ arg1 ∷ len ∷ more

module _ {W : Type 0} (m : Machine W) (debug : Bool) where
  unfoldable pub register_client : Srv → Sys W (Unit {0})
  register_client srv =
      ask m srv.handle (λ buf. translate_parameter encode_this_process_id (command buf 0x1))
      >>= no_reply

  -- An error of the registration drops the handle.
  unfoldable pub init : Sys W Srv
  init = do
    handle ← connect_to_port m (115 ∷ 114 ∷ 118 ∷ 58 ∷ 0 ∷ [])
    on_error (Handle.drop m handle)
        (register_client (record { handle = handle; blocking_policy = blocking }))
    pure (record { handle = handle; blocking_policy = blocking })

  unfoldable pub enable_notifications : Srv → Sys W ℕ
  enable_notifications srv = ask m srv.handle (λ buf. ok (command buf 0x2)) >>= read_handle debug

  unfoldable pub register_service : Srv → List ℕ → ℕ → Sys W ℕ
  register_service srv service_name max_sessions =
      ask m srv.handle
        (λ buf. parameters (name_words service_name (max_sessions ∷ [])) (command buf 0x3))
      >>= read_handle debug

  unfoldable pub unregister_service : Srv → List ℕ → Sys W (Unit {0})
  unregister_service srv service_name =
      ask m srv.handle (λ buf. parameters (name_words service_name []) (command buf 0x4))
      >>= no_reply

  unfoldable pub get_service_handle : Srv → List ℕ → Sys W ℕ
  get_service_handle srv service_name =
      ask m srv.handle (λ buf.
        parameters (name_words service_name (policy_value srv.blocking_policy ∷ []))
          (command buf 0x5))
      >>= read_handle debug

  -- The loop of `get_service_handle_alternatives`, from index `i` on with the last error.
  unfoldable pub try_names : Srv → List (List ℕ) → ℕ → ℕ → Sys W (ℕ × ℕ)
  try_names srv [] i result w = (err result, w)
  try_names srv (name ∷ names) i result w =
      let (r, w') = get_service_handle srv name w in
      elim r [
        | ok handle ↦ (ok (handle, i), w')
        | err e ↦ try_names srv names (i + 1) e w'
        | panic ↦ (panic, w')
      ]

  unfoldable pub get_service_handle_alternatives : Srv → List (List ℕ) → Sys W (ℕ × ℕ)
  unfolding try_names
  get_service_handle_alternatives srv service_names =
      try_names srv service_names 0 ErrorCode.not_authorized

  unfoldable pub subscribe : Srv → ℕ → Sys W (Unit {0})
  subscribe srv notification_id =
      ask m srv.handle (λ buf. parameter notification_id (command buf 0x9)) >>= no_reply

  unfoldable pub unsubscribe : Srv → ℕ → Sys W (Unit {0})
  unsubscribe srv notification_id =
      ask m srv.handle (λ buf. parameter notification_id (command buf 0xa)) >>= no_reply

  unfoldable pub receive_notification : Srv → Sys W ℕ
  receive_notification srv = ask m srv.handle (λ buf. ok (command buf 0xb)) >>= read_word

  unfoldable pub publish_notification : Srv → ℕ → Bool → Bool → Sys W (Unit {0})
  publish_notification srv notification_id coalesc_pending ignore_overflow =
      ask m srv.handle (λ buf.
        parameters (notification_id ∷ publish_flags coalesc_pending ignore_overflow ∷ [])
          (command buf 0xc))
      >>= no_reply

  -- `n` words of the reply.
  unfoldable pub read_words : ℕ → CommandBufferReader → Outcome (List ℕ)
  read_words zero reply = ok []
  read_words (suc n) reply = Reply.read_word reply >>? λ (p : ℕ × CommandBufferReader).
      read_words n p.1 >>? λ (words : List ℕ). ok (p.0 ∷ words)

  -- The slice of `subscribers` panics where it is shorter than the number in the reply.
  unfoldable pub publish_notification_get_subscribers :
      Srv → ℕ → Bool → Bool → List ℕ → Sys W (List ℕ)
  unfolding read_words
  publish_notification_get_subscribers srv notification_id coalesc_pending ignore_overflow
        subscribers =
      ask m srv.handle (λ buf.
        parameters (notification_id ∷ publish_flags coalesc_pending ignore_overflow ∷ [])
          (command buf 0xd))
      >>= λ reply. lift (
          Reply.read_word reply >>? λ (p : ℕ × CommandBufferReader).
          (if ltb (length subscribers) p.0 then panic else read_words p.0 p.1))

  unfoldable pub is_service_registered : Srv → List ℕ → Sys W Bool
  is_service_registered srv service_name =
      ask m srv.handle (λ buf. parameters (name_words service_name []) (command buf 0xe))
      >>= λ reply. read_word reply >>= λ (word : ℕ). pure (not (word == 0))
