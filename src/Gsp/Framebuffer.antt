-- ===== src/Gsp/Framebuffer.antt =====
-- `FramebufferInfo` of src/services/gsp/gpu.rs and the calls of `Sharedmem` that use it. A schedule
-- lists, for each turn of the loop, what the GSP writes before the `compare_exchange_weak` and
-- whether that fails spuriously.
pub mod Trigger
pub mod Update
use ctru_rt.Base.{
  ℕ, ◌+◌, ◌*◌, ◌/◌, ◌^◌, List, [], ◌∷◌, Option, none, some, okay, fail, Bool, true, false, not,
  ◌&&◌, ◌==◌, if◌then◌else◌, from_le_bytes, le_byte, ◌≡◌, refl, ℕ_discrete, arith, Outcome, ok, err,
  panic,
}
use ctru_rt.Gsp.Screen.{
  Screen, screen_value, FramebufferIndex, first, second, index_value, index_from_value, swap,
}
use ctru_rt.EnumCast.{match_value, number_variants}
use ctru_rt.Gsp.Interrupts.{Memory, load, store, load-store}

pub record FramebufferInfoInner : Type 0 where
  pub active_framebuffer : ℕ
  pub fb0_vaddr : ℕ
  pub fb1_vaddr : ℕ
  pub stride : ℕ
  pub format : ℕ
  pub display_select : ℕ
  pub unknown : ℕ

-- The word of the shared memory at which the information of a thread for a screen starts.
unfoldable pub framebuffer_info_for : ℕ → Screen → ℕ
framebuffer_info_for gsp_module_thread_index screen =
    0x80 + gsp_module_thread_index * 0x20 + screen_value screen * 0x10

unfoldable pub update_index : ℕ → FramebufferIndex → ℕ
update_index header index =
    from_le_bytes (index_value index) 1 (le_byte 2 header) (le_byte 3 header)

-- `expect` panics on an index that the GSP does not have.
unfoldable pub load_index : Memory → ℕ → Outcome FramebufferIndex
unfolding load index_from_value
load_index memory info = elim (index_from_value (le_byte 0 (load memory info))) [
  | okay i ↦ ok i
  | fail _ ↦ panic
]

unfoldable pub info_at : ℕ → FramebufferIndex → ℕ
info_at info index = info + 1 + index_value index * 7

-- The seven words of the structure.
unfoldable pub write_info : ℕ → FramebufferInfoInner → Memory → Memory
write_info place i memory = store (place + 6) (i.unknown) (
    store (place + 5) (i.display_select) (
      store (place + 4) (i.format) (
        store (place + 3) (i.stride) (
          store (place + 2) (i.fb1_vaddr)
            (store (place + 1) (i.fb0_vaddr) (store place (i.active_framebuffer) memory))))))

abbrev pub Schedule : Type 0
Schedule = List ((Memory → Memory) × Bool)

-- `none`: the turns of the schedule are over and the loop is not.
unfoldable pub trigger_loop : ℕ → FramebufferIndex → Schedule → ℕ → Memory → Option Memory
unfolding load
trigger_loop info active_fb [] current memory =
    if load memory info == current
    then some (store info (update_index current active_fb) memory)
    else none
trigger_loop info active_fb ((gsp_writes, spurious) ∷ schedule) current memory =
    let memory' = gsp_writes memory in
    let later = trigger_loop info active_fb schedule (load memory' info) memory' in
    if not spurious && (load memory' info == current)
    then some (store info (update_index current active_fb) memory')
    else later

unfoldable pub trigger_update : ℕ → FramebufferIndex → Schedule → Memory → Option Memory
unfolding trigger_loop
trigger_update info active_fb schedule memory =
    trigger_loop info active_fb schedule (load memory info) memory

unfoldable pub new_info : FramebufferIndex → ℕ → ℕ → ℕ → ℕ → FramebufferInfoInner
new_info active_fb fb0 fb1 stride format = record {
  active_framebuffer = index_value active_fb;
  fb0_vaddr = fb0;
  fb1_vaddr = fb1;
  stride = stride;
  format = format;
  display_select = index_value active_fb;
  unknown = 0;
}

unfoldable pub update :
    ℕ → FramebufferIndex → ℕ → ℕ → ℕ → ℕ → Schedule → Memory → Outcome (Option Memory)
unfolding load_index trigger_update
update info active_fb fb0 fb1 stride format schedule memory = elim (load_index memory info) [
  | panic ↦ panic
  | err e ↦ err e
  | ok index ↦ ok (
      trigger_update info active_fb schedule
        (write_info (info_at info (swap index)) (new_info active_fb fb0 fb1 stride format) memory))
]

unfoldable pub present_buffer :
    ℕ → Screen → FramebufferIndex → ℕ → ℕ → ℕ → ℕ → Schedule → Memory → Outcome (Option Memory)
unfolding update
present_buffer thread screen active_fb fb0 fb1 stride mode schedule memory =
    update (framebuffer_info_for thread screen) active_fb fb0 fb1 stride mode schedule memory
