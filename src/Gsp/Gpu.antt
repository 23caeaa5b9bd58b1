-- ===== src/Gsp/Gpu.antt =====
-- `Gpu` of src/services/gsp/gpu.rs: the requests to the service. The state beside the outside world
-- is that of the global mapper of shared memory.
use ctru_rt.Base.{ℕ, Bool, ◌==◌, if◌then◌else◌, bit_and, List, [], ◌∷◌, ok, err, panic}
use ctru_rt.Base.{◌>>=◌ as ◌>>?◌}
use ctru_rt.Machine.{Machine, Sys, ◌>>=◌, ◌>>◌, pure, lift, fails, ignore, on_error, outside}
use ctru_rt.Codes.Level
use ctru_rt.Codes.Summary
use ctru_rt.Codes.Origin.{Module}
use ctru_rt.Codes.ResultCode
use ctru_rt.Os.Handle
use ctru_rt.Os.Mem
use ctru_rt.Os.Mem.{MemoryPermission}
use ctru_rt.Os.Sharedmem.{MappedBlock, map}
use ctru_rt.Ipc.Reply
use ctru_rt.Ipc.Reply.{CommandBufferReader}
use ctru_rt.Ipc.Translate.{encode_borrowed_handle, decode_owned_handle}
use ctru_rt.Ipc.Request.{command, parameter, translate_parameter, dispatch_no_fail, send}
use ctru_rt.Sync.Event
use ctru_rt.Srv.{Srv, get_service_handle}
use ctru_rt.Gsp.Registers.{init_hardware}

pub record Sharedmem : Type 0 where
  pub gpu_events : ℕ
  pub gsp_module_thread_index : ℕ
  pub shared_memory : MappedBlock

-- The access rights are the service handle.
pub record Gpu : Type 0 where
  pub access : ℕ
  pub sharedmem : Sharedmem

-- `RESULT_NEED_HW_INIT`
unfoldable pub need_hw_init : ℕ
need_hw_init = ResultCode.new Level.success Summary.success Module.gsp 519

module _ {W : Type 0} (m : Machine W) (debug : Bool) (value_address mask_address : ℕ → ℕ) where
  unfoldable pub aquire_access : ℕ → ℕ → ℕ → Sys W ℕ
  aquire_access service_handle owner_process flags =
      on_error (Handle.drop m service_handle) (λ w.
        send m
          (parameter flags (command (m.command_buffer w) 0x16)
            >>? translate_parameter (encode_borrowed_handle owner_process))
          service_handle w)
      >>= λ _. pure service_handle

  -- `AccessRightsToken::release`, and its `Drop` with that of the handle.
  unfoldable pub release : ℕ → Sys W (Unit {0})
  release access = (λ w. send m (ok (command (m.command_buffer w) 0x17)) access w) >>= λ _. pure tt

  unfoldable pub drop_access : ℕ → Sys W (Unit {0})
  drop_access access = ignore (release access) >> Handle.drop m access

  -- What the reply to the registration says: the result code, the thread and the queue.
  unfoldable pub register_reply : ℕ × CommandBufferReader → Sys W (ℕ × ℕ × ℕ)
  register_reply (result_code, reply) = do
    p ← lift (Reply.read_word reply)
    q ← lift (decode_owned_handle debug p.1)
    pure (result_code, bit_and p.0 0xff, q.0)

  unfoldable pub register_queue : ℕ → ℕ → ℕ → Sys W (ℕ × ℕ × ℕ)
  register_queue access flags gpu_events =
      (λ w.
        elim (parameter flags (command (m.command_buffer w) 0x13)
          >>? translate_parameter (encode_borrowed_handle gpu_events)) [
            | ok r ↦ dispatch_no_fail m r access w
            | err e ↦ (err e, w)
            | panic ↦ (panic, w)
          ])
      >>= register_reply

  -- The match on the result code.
  unfoldable pub start_hardware : ℕ → ℕ → Sys W (Unit {0})
  start_hardware access result_code = elim (ResultCode.into_result result_code) [
    | ok _ ↦ pure tt
    | err e ↦
        if e == need_hw_init then init_hardware m value_address mask_address access else fails e
    | panic ↦ (λ w. (panic, w))
  ]

  unfoldable pub map_shared_memory : ℕ → Sys (W × ℕ) MappedBlock
  map_shared_memory shared_memory_handle =
      map m shared_memory_handle 0x1000 (Mem.permission_number MemoryPermission.rw)
        (Mem.permission_number MemoryPermission.dont_care)

  unfoldable pub map_queue : ℕ → ℕ → ℕ × ℕ × ℕ → Sys (W × ℕ) Sharedmem
  map_queue access gpu_events (result_code, thread, queue_handle) = do
    outside (on_error (Handle.drop m queue_handle) (start_hardware access result_code))
    shared_memory ← map_shared_memory queue_handle
    pure (record {
      gpu_events = gpu_events;
      gsp_module_thread_index = thread;
      shared_memory = shared_memory;
    })

  unfoldable pub register_interrupt_relay_queue : ℕ → ℕ → Sys (W × ℕ) Sharedmem
  register_interrupt_relay_queue access flags = do
    gpu_events ← outside (Event.new m Event.one_shot)
    on_error (outside (Handle.drop m gpu_events))
        (outside (register_queue access flags gpu_events) >>= map_queue access gpu_events)

  unfoldable pub init : Srv → Sys (W × ℕ) Gpu
  init srv = do
    service_handle ← outside (get_service_handle m debug srv gsp_name)
    access ← outside (aquire_access service_handle Handle.active_process 0x00)
    queue ← on_error (outside (drop_access access)) (register_interrupt_relay_queue access 0x01)
    pure (record { access = access; sharedmem = queue })
    where
      gsp_name : List ℕ
      gsp_name = 103 ∷ 115 ∷ 112 ∷ 58 ∷ 58 ∷ 71 ∷ 112 ∷ 117 ∷ []

unfoldable pub set_lcd_force_blank : {W : Type 0} → Machine W → ℕ → ℕ → Sys W (Unit {0})
set_lcd_force_blank m access flags =
    (λ w. send m (parameter flags (command (m.command_buffer w) 0x0b)) access w) >>= λ _. pure tt
