-- ===== src/Gsp/Framebuffer/Trigger.antt =====
-- The store that selects a framebuffer and sets the update flag.
use ctru_rt.Base.{
  ℕ, zero, suc, length, ◌≤◌, ◌≢◌, ◌/◌, ◌^◌, [], ◌∷◌, some, true, false, le_byte, ◌≡◌, refl,
  ℕ_discrete, arith,
}
use ctru_rt.Gsp.Screen.{FramebufferIndex, first, second, index_value}
use ctru_rt.Gsp.Interrupts.{Memory, load, store, load-store}
use ctru_rt.Gsp.Framebuffer.{update_index, Schedule, trigger_loop, trigger_update}

-- The header after the store.
stored_header :
    (info : ℕ) (i : FramebufferIndex) (before : Memory)
    → let w = load (store info (update_index (load before info) i) before) info in
      (le_byte 0 w ≡ index_value i) × (le_byte 1 w ≡ 1) × (w / 2 ^ 16 ≡ load before info / 2 ^ 16)
unfolding update_index index_value load
stored_header info first before = (
  ground (arith, load-store info (update_index (load before info) first) before),
  ground (arith, load-store info (update_index (load before info) first) before),
  ground (arith, load-store info (update_index (load before info) first) before),
)
stored_header info second before = (
  ground (arith, load-store info (update_index (load before info) second) before),
  ground (arith, load-store info (update_index (load before info) second) before),
  ground (arith, load-store info (update_index (load before info) second) before),
)

-- The memory behind what the GSP writes in the first turns of a schedule.
abbrev pub memory_after : ℕ → Schedule → Memory → Memory
memory_after zero schedule memory = memory
memory_after (suc n) [] memory = memory
memory_after (suc n) ((gsp_writes, spurious) ∷ schedule) memory =
    memory_after n schedule (gsp_writes memory)

-- The header selects the framebuffer, has the update flag and its other two bytes, and no other
-- word has changed.
abbrev pub Triggered : ℕ → FramebufferIndex → Memory → Memory → Type 0
Triggered info active_fb before memory' =
    ((i : ℕ) → i ≢ info → memory' i ≡ before i)
    × (le_byte 0 (load memory' info) ≡ index_value active_fb)
    × (le_byte 1 (load memory' info) ≡ 1)
    × (load memory' info / 2 ^ 16 ≡ load before info / 2 ^ 16)

pub triggered :
    (info : ℕ) (active_fb : FramebufferIndex) (before : Memory)
    → Triggered info active_fb before
        (store info (update_index (load before info) active_fb) before)
unfolding store
triggered info active_fb before =
    let (p, q, r) = stored_header info active_fb before in (λ i other. ground arith, p, q, r)

TriggerLoop : ℕ → FramebufferIndex → Schedule → ℕ → Memory → Type 0
TriggerLoop info active_fb schedule current memory =
    (turns : ℕ) × (memory' : Memory) × (turns ≤ length schedule)
    × (trigger_loop info active_fb schedule current memory ≡ some memory')
    × Triggered info active_fb (memory_after turns schedule memory) memory'

trigger_loop_lem :
    (info : ℕ) (active_fb : FramebufferIndex) (schedule : Schedule) (current : ℕ) (memory : Memory)
    → load memory info ≡ current
    → TriggerLoop info active_fb schedule current memory
unfolding trigger_loop TriggerLoop
trigger_loop_lem info active_fb [] current memory h = (
  0,
  store info (update_index (load memory info) active_fb) memory,
  omega arith,
  ground arith,
  triggered info active_fb memory,
)
trigger_loop_lem info active_fb ((f, true) ∷ schedule) current memory h =
    let (turns, memory', n, e, t) =
      trigger_loop_lem info active_fb schedule (load (f memory) info) (f memory) refl in
    (suc turns, memory', omega arith, e, t)
trigger_loop_lem info active_fb ((f, false) ∷ schedule) current memory h =
    let (turns, memory', n, e, t) =
      trigger_loop_lem info active_fb schedule (load (f memory) info) (f memory) refl in
    elim (ℕ_discrete (load (f memory) info) current) [
      | yes s ↦ (
        1,
        store info (update_index (load (f memory) info) active_fb) (f memory),
        omega arith,
        ground arith,
        triggered info active_fb (f memory),
      )
      | no s ↦ (suc turns, memory', omega arith, ground (arith, e), t)
    ]

-- Whatever the GSP writes and however often the exchange fails, `trigger_update` returns within the
-- schedule. To what the GSP has written in the turns until then it has made one change: the header
-- selects the framebuffer and has the update flag, and keeps its other two bytes.
pub trigger_update_lem :
    (info : ℕ) (active_fb : FramebufferIndex) (schedule : Schedule) (memory : Memory)
    → (turns : ℕ) × (memory' : Memory) × (turns ≤ length schedule)
      × (trigger_update info active_fb schedule memory ≡ some memory')
      × Triggered info active_fb (memory_after turns schedule memory) memory'
unfolding trigger_update TriggerLoop
trigger_update_lem info active_fb schedule memory =
    trigger_loop_lem info active_fb schedule (load memory info) memory refl
