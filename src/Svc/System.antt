-- ===== src/Svc/System.antt =====
-- The calls of src/svc.rs that read numbers of the system, and their callers in src/os/mod.rs.
use ctru_rt.Base.{ℕ, ◌+◌, ◌*◌, ◌^◌, List, [], ◌∷◌, ok}
use ctru_rt.Machine.{Machine, unused, word, Sys, ◌>>=◌, pure}
use ctru_rt.Svc.Calls.{svc_word, svc_registers, output_debug_bytes}
use ctru_rt.Os.Mem.{MemoryRegion, region_number}

pub data UserBreakReason : Type 0 where
  panic_reason assert user load_ro unload_ro : UserBreakReason

unfoldable pub reason_number : UserBreakReason → ℕ
reason_number panic_reason = 0
reason_number assert = 1
reason_number user = 2
reason_number load_ro = 3
reason_number unload_ro = 4

module _ {W : Type 0} (m : Machine W) where
  unfoldable pub get_thread_priority : ℕ → Sys W ℕ
  get_thread_priority handle = svc_word m 0x0b (unused ∷ word handle ∷ [])

  -- `svc 0x28` by itself: the high word is read from r0 and the low word from r1.
  unfoldable pub get_system_tick_count : Sys W ℕ
  get_system_tick_count w = let (r, w') = m.svc 0x28 [] w in (ok (r 0 * 2 ^ 32 + r 1), w')

  -- An i64 by its bits.
  unfoldable pub get_system_info : ℕ → ℕ → Sys W ℕ
  get_system_info sysinfo_type param = do
    r ← svc_registers m 0x2a (unused ∷ word sysinfo_type ∷ word param ∷ [])
    pure (r 2 * 2 ^ 32 + r 1)

  -- `MemoryRegion::used`, with `MEM_USED`
  unfoldable pub used : MemoryRegion → Sys W ℕ
  used region = get_system_info 0 (region_number region)

  -- `SystemTick::now`
  unfoldable pub now : Sys W ℕ
  now = get_system_tick_count

  -- The calls that do not return: the state that they leave.
  unfoldable pub exit_process : W → W
  exit_process w = (m.svc 0x03 [] w).1

  unfoldable pub exit_thread : W → W
  exit_thread w = (m.svc 0x09 [] w).1

  unfoldable pub user_break : UserBreakReason → W → W
  user_break reason w = (m.svc 0x3c (word (reason_number reason) ∷ []) w).1

  unfoldable pub output_debug_string : List ℕ → Sys W (Unit {0})
  output_debug_string message = output_debug_bytes m message

-- `SystemTick` is its number of ticks.
pub record SystemTick : Type 0 where
  pub ticks : ℕ

unfoldable pub new_tick : ℕ → SystemTick
new_tick ticks = record { ticks = ticks }

unfoldable pub count : SystemTick → ℕ
count tick = tick.ticks
