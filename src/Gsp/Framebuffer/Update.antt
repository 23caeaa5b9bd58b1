-- ===== src/Gsp/Framebuffer/Update.antt =====
-- Which entry `update` fills, and which it selects.
use ctru_rt.Base.{ℕ, ◌+◌, ◌≡◌, arith}
use ctru_rt.Gsp.Screen.{FramebufferIndex, index_value}
use ctru_rt.Gsp.Interrupts.{Memory, store}

-- A word above the header is kept by a store of the header.
store-above :
    (info w k : ℕ) (memory : Memory) → store info w memory (info + 1 + k) ≡ memory (info + 1 + k)
unfolding store
store-above info w k memory = ground arith

-- The words of the entry that `update` fills.
abbrev pub Filled : ℕ → FramebufferIndex → ℕ → ℕ → ℕ → ℕ → Memory → Type 0
Filled place active_fb fb0 fb1 stride format memory =
    (memory place ≡ index_value active_fb)
    × (memory (place + 1) ≡ fb0)
    × (memory (place + 2) ≡ fb1)
    × (memory (place + 3) ≡ stride)
    × (memory (place + 4) ≡ format)
    × (memory (place + 5) ≡ index_value active_fb)
    × (memory (place + 6) ≡ 0)
