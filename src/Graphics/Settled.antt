-- ===== src/Graphics/Settled.antt =====
-- `Grapics::init` and the video memory that it holds, on each of its ways out.
use ctru_rt.Base.{ℕ, ◌+◌, ◌*◌, ◌≡◌, Option, none, some, Outcome, ok, err, panic}
use ctru_rt.Machine.{Machine}
use ctru_rt.Alloc.{Allocator}
use ctru_rt.Gsp.Screen.{Screen, top, bottom}
use ctru_rt.Gsp.Gpu.{Gpu}
use ctru_rt.Graphics.{FramebufferColorFormat}
use ctru_rt.Alloc.{Counts}
use ctru_rt.Graphics.Live.{bytes}
use ctru_rt.Graphics.Init.{Schedules}

module _ {S : Type 0} (live : S → ℕ) where
  -- What is in use when the call has returned or failed; where it has not ended, nothing is said.
  abbrev pub Settled : {V A : Type 0} → ℕ → S → Outcome (Option A) × (V × S) → Type 0
  Settled n s (ok (some x), (v, s')) = live s' ≡ live s + n
  Settled n s (ok none, t) = Unit
  Settled n s (err e, (v, s')) = live s' ≡ live s
  Settled n s (panic, t) = Unit

module _ {W : Type 0} (m : Machine W) (gpu : Gpu) {S : Type 0} (a : Allocator S) (live : S → ℕ)
    (counts : Counts a live) (format_top format_bottom : FramebufferColorFormat)
    (schedules : Schedules) where
  abbrev top_bytes : ℕ
  top_bytes = 2 * bytes a live counts top format_top

  abbrev bottom_bytes : ℕ
  bottom_bytes = 2 * bytes a live counts bottom format_bottom
