-- ===== src/Services/Soc.antt =====
-- src/services/soc.rs: the sockets service. The state beside the outside world is that of the
-- heap's allocator, which the buffer that is shared with the service comes from.
pub mod Ownership
use ctru_rt.Base.{
  ℕ, ◌==◌, if◌then◌else◌, Bool, List, [], ◌∷◌, Option, none, some, Outcome, ok, err, panic, Result,
  okay, fail, le_byte,
}
use ctru_rt.Base.{◌>>=◌ as ◌>>?◌}
use ctru_rt.Machine.{
  Machine, Sys, ◌>>=◌, ◌>>◌, pure, lift, panics, ignore, on_error, outside, modify,
}
use ctru_rt.Alloc.{Allocator}
use ctru_rt.Heap.Buffer
use ctru_rt.Heap.Buffer.{PageAlignedBuffer}
use ctru_rt.Os.Handle
use ctru_rt.Os.Mem
use ctru_rt.Os.Mem.{MemoryPermission}
use ctru_rt.Svc.Calls.{create_memory_block}
use ctru_rt.Tls
use ctru_rt.Tls.{Descriptor}
use ctru_rt.Ipc.Client.{ask, no_reply, read_word}
use ctru_rt.Ipc.Translate.{encode_this_process_id, encode_borrowed_handle}
use ctru_rt.Ipc.Request.{command, parameter, parameters, translate_parameter}
use ctru_rt.Srv.{Srv, get_service_handle}

pub data Domain : Type 0 where
  af_inet : Domain

unfoldable pub domain_value : Domain → ℕ
domain_value af_inet = 2

pub data SocketType : Type 0 where
  stream datagram : SocketType

unfoldable pub socket_type_value : SocketType → ℕ
socket_type_value stream = 1
socket_type_value datagram = 2

pub data Protocol : Type 0 where
  default_protocol : Protocol

unfoldable pub protocol_value : Protocol → ℕ
protocol_value default_protocol = 0

-- A `PosixReturnValue` is its word.
pub data SocketError : Type 0 where
  system_err socket_err : ℕ → SocketError

unfoldable pub into_result : ℕ → Result (Unit {0}) SocketError
into_result rv = if rv == 0 then okay tt else fail (socket_err rv)

unfoldable pub check : ℕ → Result (Unit {0}) SocketError
check ret = if ret == 0 then okay tt else fail (socket_err ret)

-- `map_err(SocketError::SystemErr)`, and what `?` does with a system error.
abbrev pub system : {W A : Type 0} → Sys W A → Sys W (Result A SocketError)
system call w =
    let (r, w') = call w in
    elim r [
      | ok a ↦ (ok (okay a), w')
      | err e ↦ (ok (fail (system_err e)), w')
      | panic ↦ (panic, w')
    ]

-- `and_then` of such results.
abbrev pub after :
    {A B : Type 0} → (A → Result B SocketError) → Result A SocketError → Result B SocketError
after f (okay a) = f a
after f (fail e) = fail e

pub record Soc : Type 0 where
  pub handle : ℕ
  pub buffer : PageAlignedBuffer
  pub buffer_handle : ℕ

module _ {W : Type 0} (m : Machine W) where
  -- A socket's descriptor is its word.
  unfoldable pub socket : Soc → Domain → SocketType → Protocol → Sys W ℕ
  socket soc domain socket_type protocol =
      ask m soc.handle (λ buf.
        parameters
          (domain_value domain ∷ socket_type_value socket_type ∷ protocol_value protocol ∷ [])
          (command buf 0x2)
        >>? translate_parameter encode_this_process_id)
      >>= read_word

  -- The `backlog` is the word that the isize is cast to.
  unfoldable pub listen : Soc → ℕ → ℕ → Sys W (Result (Unit {0}) SocketError)
  listen soc fd backlog =
      system (
        ask m soc.handle (λ buf.
          parameter fd (command buf 0x3)
          >>? parameter backlog
          >>? translate_parameter encode_this_process_id)
        >>= read_word)
      >>= λ (result : Result ℕ SocketError). pure (after into_result result)

  -- The array of 0x1c integers, of four bytes each, is announced in descriptor 0. `store` is the
  -- write of a descriptor to the thread local storage at `tls`. Behind the request the function
  -- is not implemented.
  unfoldable pub accept : (ℕ × Descriptor → W → W) → ℕ → ℕ → Soc → ℕ → Sys W (List ℕ)
  accept store tls address_data soc fd w =
      (ask m soc.handle (λ buf.
            parameter fd (command buf 0x4)
            >>? parameter 0x1c
            >>? translate_parameter encode_this_process_id)
          >>= λ reply. panics)
        (store (Tls.set (Tls.static_buffer_descriptors tls) 0 address_data 0x1c 4) w)

  unfoldable pub bind : Soc → ℕ → ℕ → Sys W (Result (Unit {0}) SocketError)
  bind soc fd addrlen = panics

  unfoldable pub gethostid : Soc → Sys W (Result (List ℕ) SocketError)
  gethostid soc =
      system (ask m soc.handle (λ buf. ok (command buf 0x16)) >>= read_word)
      >>= λ (result : Result ℕ SocketError). pure (
          after
            (λ word. okay (le_byte 0 word ∷ le_byte 1 word ∷ le_byte 2 word ∷ le_byte 3 word ∷ []))
            result)

  unfoldable pub shutdown : ℕ → Sys W (Unit {0})
  shutdown handle = ask m handle (λ buf. ok (command buf 0x19)) >>= no_reply

  module _ {S : Type 0} (a : Allocator S) where
    unfoldable pub drop_buffer : PageAlignedBuffer → Sys (W × S) (Unit {0})
    drop_buffer buffer = modify (Buffer.drop a buffer)

    -- `Drop`, and that of the fields.
    unfoldable pub drop : Soc → Sys (W × S) (Unit {0})
    unfolding drop_buffer
    drop soc =
        outside (ignore (shutdown soc.handle))
        >> outside (Handle.drop m soc.handle)
        >> drop_buffer soc.buffer
        >> outside (Handle.drop m soc.buffer_handle)

    -- The buffer is taken out before the service is dropped.
    unfoldable pub reclaim : Soc → Sys (W × S) PageAlignedBuffer
    reclaim soc =
        on_error (drop soc) (outside (shutdown soc.handle))
        >> drop (record soc { buffer = Buffer.null })
        >> pure soc.buffer

    -- The request that registers the buffer.
    unfoldable pub initialize : ℕ → PageAlignedBuffer → ℕ → Sys W (Unit {0})
    initialize handle buffer buffer_handle =
        ask m handle (λ buf.
          parameter (Buffer.size buffer) (command buf 0x1)
          >>? translate_parameter encode_this_process_id
          >>? translate_parameter (encode_borrowed_handle buffer_handle))
        >>= no_reply

    -- "soc:U"; what an error leaves is dropped, the last first.
    unfoldable pub connect : Bool → Srv → PageAlignedBuffer → ℕ → Sys W Soc
    connect debug srv buffer buffer_handle =
        get_service_handle m debug srv (115 ∷ 111 ∷ 99 ∷ 58 ∷ 85 ∷ []) >>= λ (handle : ℕ).
        on_error (Handle.drop m handle) (initialize handle buffer buffer_handle)
        >> pure (record { handle = handle; buffer = buffer; buffer_handle = buffer_handle })

    unfoldable pub create : Bool → Srv → PageAlignedBuffer → Sys W Soc
    create debug srv buffer =
        lift (elim buffer.buffer [ none ↦ panic | some address ↦ ok address ]) >>= λ (address : ℕ).
        create_memory_block m address (Buffer.size buffer)
          (Mem.permission_number MemoryPermission.no_access)
          (Mem.permission_number MemoryPermission.rw)
        >>= λ (buffer_handle : ℕ).
            on_error (Handle.drop m buffer_handle) (connect debug srv buffer buffer_handle)

    -- An error drops the buffer that was passed.
    unfoldable pub init : Bool → Srv → PageAlignedBuffer → Sys (W × S) Soc
    init debug srv buffer = on_error (drop_buffer buffer) (outside (create debug srv buffer))
