-- ===== src/Svc/Calls.antt =====
-- The calls that take words and return at most handles and words.
use ctru_rt.Base.{ℕ, Bool, if◌then◌else◌, List, [], ◌∷◌, length}
use ctru_rt.Base.{Outcome, ok, err, panic, Option, none, some}
use ctru_rt.Codes.ResultCode
use ctru_rt.Machine.{Machine, Register, unused, word, pointer, Sys, ◌>>=◌, ◌>>◌, pure, lift}
use ctru_rt.Svc.Timeout

-- `OwnedHandle::new`, on a raw handle that is not 0.
abbrev pub owned_handle : ℕ → Option ℕ
owned_handle raw = ResultCode.non_zero raw

-- `OwnedHandle::from_register`: `.expect(…)`
unfoldable pub handle_from_register : ℕ → Outcome ℕ
handle_from_register reg = elim (owned_handle reg) [ some h ↦ ok h | none ↦ panic ]

module _ {W : Type 0} (m : Machine W) where
  -- `svc!(n: (inputs))`, and with one word and one handle for output.
  unfoldable pub svc_unit : ℕ → List Register → Sys W (Unit {0})
  svc_unit n inputs w = let (r, w') = m.svc n inputs w in (ResultCode.into_result (r 0), w')

  unfoldable pub svc_registers : ℕ → List Register → Sys W (ℕ → ℕ)
  svc_registers n inputs w = let (r, w') = m.svc n inputs w in (ResultCode.and (r 0) r, w')

  unfoldable pub svc_word : ℕ → List Register → Sys W ℕ
  svc_word n inputs = do r ← svc_registers n inputs; pure (r 1)

  unfoldable pub svc_handle : ℕ → List Register → Sys W ℕ
  svc_handle n inputs = do r ← svc_registers n inputs; lift (handle_from_register (r 1))

  unfoldable pub control_memory : ℕ → ℕ → ℕ → ℕ → ℕ → Sys W ℕ
  control_memory op addr0 addr1 size permission =
      svc_word 0x01 (word op ∷ word addr0 ∷ word addr1 ∷ word size ∷ word permission ∷ [])

  unfoldable pub create_thread : ℕ → ℕ → ℕ → ℕ → ℕ → Sys W ℕ
  create_thread priority entry_point argument stacktop processor_id =
      svc_handle 0x08
        (word priority ∷ word entry_point ∷ word argument ∷ word stacktop ∷ word processor_id ∷ [])

  unfoldable pub create_mutex : Bool → Sys W ℕ
  create_mutex initially_locked = svc_handle 0x13 (word (if initially_locked then 1 else 0) ∷ [])

  unfoldable pub release_mutex : ℕ → Sys W (Unit {0})
  release_mutex handle = svc_unit 0x14 (word handle ∷ [])

  unfoldable pub create_event : ℕ → Sys W ℕ
  create_event reset_type = svc_handle 0x17 (word reset_type ∷ [])

  unfoldable pub signal_event : ℕ → Sys W (Unit {0})
  signal_event handle = svc_unit 0x18 (word handle ∷ [])

  unfoldable pub clear_event : ℕ → Sys W (Unit {0})
  clear_event handle = svc_unit 0x19 (word handle ∷ [])

  unfoldable pub create_memory_block : ℕ → ℕ → ℕ → ℕ → Sys W ℕ
  create_memory_block address size my_permissions other_permissions =
      svc_handle 0x1e (word other_permissions ∷ word address ∷ word size ∷ word my_permissions ∷ [])

  unfoldable pub map_memory_block : ℕ → ℕ → ℕ → ℕ → Sys W (Unit {0})
  map_memory_block handle address my_permissions other_permissions =
      svc_unit 0x1f (word handle ∷ word address ∷ word my_permissions ∷ word other_permissions ∷ [])

  unfoldable pub unmap_memory_block : ℕ → ℕ → Sys W (Unit {0})
  unmap_memory_block handle addr = svc_unit 0x20 (word handle ∷ word addr ∷ [])

  unfoldable pub create_address_arbiter : Sys W ℕ
  create_address_arbiter = svc_handle 0x21 []

  unfoldable pub arbitrate_address : ℕ → ℕ → ℕ → ℕ → ℕ → Sys W (Unit {0})
  arbitrate_address handle address arbitration_type value timeout = svc_unit 0x22 (
      word handle
      ∷ word address
      ∷ word arbitration_type
      ∷ word value
      ∷ word (Timeout.reg_low timeout)
      ∷ word (Timeout.reg_high timeout)
      ∷ [])

  unfoldable pub close_handle : ℕ → Sys W (Unit {0})
  close_handle handle = svc_unit 0x23 (word handle ∷ [])

  unfoldable pub duplicate_handle : ℕ → Sys W ℕ
  duplicate_handle handle = svc_handle 0x27 (unused ∷ word handle ∷ [])

  -- The name's bytes, which the caller ends by a zero.
  unfoldable pub connect_to_port : List ℕ → Sys W ℕ
  connect_to_port port_name = svc_handle 0x2d (unused ∷ pointer port_name ∷ [])

  -- The command buffer is memory that the kernel reads and writes.
  unfoldable pub send_sync_request : ℕ → List ℕ → Sys W (List ℕ)
  send_sync_request handle cmdbuf w =
      let (r, w') = svc_unit 0x32 (word handle ∷ []) (m.store_command_buffer cmdbuf w) in
      elim r [ ok _ ↦ (ok (m.command_buffer w'), w') | err e ↦ (err e, w') | panic ↦ (panic, w') ]

  unfoldable pub get_process_id : ℕ → Sys W ℕ
  get_process_id process_handle = svc_word 0x35 (unused ∷ word process_handle ∷ [])

  -- r0 points to the local `out_handle`, which is 0.
  unfoldable pub get_resource_limit : ℕ → Sys W ℕ
  get_resource_limit process_handle = svc_handle 0x38 (pointer (0 ∷ []) ∷ word process_handle ∷ [])

  -- The kernel writes the values behind the pointer in r0; an i64 is two words, low first.
  unfoldable pub get_resource_limit_values : ℕ → List ℕ → List ℕ → Sys W (List ℕ)
  get_resource_limit_values limits_handle values limit_types = do
    svc_unit 0x39
        (pointer values ∷ word limits_handle ∷ pointer limit_types ∷ word (length limit_types) ∷ [])
    λ w. (ok (m.read_pointer w), w)

  unfoldable pub get_resource_limit_current_values : ℕ → List ℕ → List ℕ → Sys W (List ℕ)
  get_resource_limit_current_values limits_handle values limit_types = do
    svc_unit 0x3a
        (pointer values ∷ word limits_handle ∷ pointer limit_types ∷ word (length limit_types) ∷ [])
    λ w. (ok (m.read_pointer w), w)

  unfoldable pub output_debug_bytes : List ℕ → Sys W (Unit {0})
  output_debug_bytes bytes w =
      let (r, w') = svc_unit 0x3d (pointer bytes ∷ word (length bytes) ∷ []) w in (ok tt, w')
