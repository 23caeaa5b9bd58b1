-- ===== src/Graphics/Init.antt =====
-- `Grapics::init` and what it waits for. A loop that waits is run over rounds: the fuel and the
-- schedule of the GSP's writes in each; `none` where they are over and the loop is not.
use ctru_rt.Base.{ℕ, if◌then◌else◌, List, [], ◌∷◌, Option, none, some, ok, err, panic}
use ctru_rt.Machine.{Machine, Sys, ◌>>=◌, pure, fails, on_error, outside}
use ctru_rt.Alloc.{Allocator}
use ctru_rt.Gsp.Screen.{Screen, top, bottom, dimensions}
use ctru_rt.Gsp.Interrupts.{Memory}
use ctru_rt.Gsp.Events
use ctru_rt.Gsp.Events.{InterruptEvent}
use ctru_rt.Gsp.Queue
use ctru_rt.Gsp.Framebuffer
use ctru_rt.Gsp.Gpu.{Gpu, set_lcd_force_blank}
use ctru_rt.Graphics.{
  FramebufferColorFormat, bgr8, ScreenConfiguration, stride, mode, as_ptr, err_screen_alloc,
  new_configuration, drop_configuration,
}

pub record Graphics : Type 0 where
  pub top : ScreenConfiguration
  pub bottom : ScreenConfiguration

-- What the GSP does while `init` presents the screens and waits.
pub record Schedules : Type 0 where
  pub present_top : Framebuffer.Schedule
  pub present_bottom : Framebuffer.Schedule
  pub rounds : List (ℕ × Queue.Schedule)

-- The next part of what may run out of its schedule.
infixl 5 ◌>>?◌
abbrev ◌>>?◌ : {W A B : Type 0} → Sys W (Option A) → (A → Sys W (Option B)) → Sys W (Option B)
call >>? f = call >>= λ found. elim found [ none ↦ pure none | some a ↦ f a ]

-- Code over the allocator, beside the rest.
abbrev pub allocating : {V S A : Type 0} → Sys S A → Sys (V × S) A
allocating call (v, s) = let (r, s') = call s in (r, (v, s'))

-- `map_err(|_| ERR_SCREEN_ALLOC)?`
abbrev pub or_screen_alloc : {V A : Type 0} → Option A → Sys V A
or_screen_alloc none = fails err_screen_alloc
or_screen_alloc (some a) = pure a

module _ {W : Type 0} (m : Machine W) (gpu : Gpu) where
  -- `ScreenConfiguration::present_buffer`: the first framebuffer stands for both.
  unfoldable pub present :
      ScreenConfiguration → Screen → Framebuffer.Schedule → Sys (W × Memory) (Option (Unit {0}))
  present c screen schedule (w, memory) =
      elim (Framebuffer.present_buffer (gpu.sharedmem.gsp_module_thread_index) screen c.active_fb
        (as_ptr c.fb0) (as_ptr c.fb0) (stride c) (mode c screen) schedule memory) [
          | ok none ↦ (ok none, (w, memory))
          | ok (some memory') ↦ (ok (some tt), (w, memory'))
          | err e ↦ (err e, (w, memory))
          | panic ↦ (panic, (w, memory))
        ]

  unfoldable pub next_event : ℕ → Queue.Schedule → Sys (W × Memory) (Option ℕ)
  next_event fuel schedule =
      Queue.wait_event m fuel (gpu.sharedmem.gpu_events) (gpu.sharedmem.gsp_module_thread_index)
        schedule

  unfoldable pub wait_vblank0 : List (ℕ × Queue.Schedule) → Sys (W × Memory) (Option (Unit {0}))
  wait_vblank0 [] = pure none
  wait_vblank0 ((fuel, schedule) ∷ rounds) =
      let again = wait_vblank0 rounds in
      next_event fuel schedule >>? λ (events : ℕ).
      (if Events.contains events InterruptEvent.v_blank0 then pure (some tt) else again)

  -- What `init` does with the two configurations.
  unfoldable pub show :
      ScreenConfiguration → ScreenConfiguration → Schedules → Sys (W × Memory) (Option Graphics)
  show top_config bottom_config schedules =
      present top_config top (schedules.present_top) >>? λ (_ : Unit {0}).
      present bottom_config bottom (schedules.present_bottom) >>? λ (_ : Unit {0}).
      wait_vblank0 (schedules.rounds) >>? λ (_ : Unit {0}).
      outside (set_lcd_force_blank m (gpu.access) 0x00) >>= λ (_ : Unit {0}).
      pure (some (record { top = top_config; bottom = bottom_config }))

  module _ {S : Type 0} (a : Allocator S) where
    -- From the bottom screen on.
    unfoldable pub init_bottom :
        FramebufferColorFormat
        → Schedules
        → ScreenConfiguration
        → Sys ((W × Memory) × S) (Option Graphics)
    init_bottom format_bottom schedules top_config =
        allocating (new_configuration a (dimensions bottom) format_bottom)
        >>= or_screen_alloc
        >>= λ (bottom_config : ScreenConfiguration).
            on_error (allocating (drop_configuration a bottom_config))
              (outside (show top_config bottom_config schedules))

    -- An error drops what there is, the last first.
    unfoldable pub init :
        FramebufferColorFormat
        → FramebufferColorFormat
        → Schedules
        → Sys ((W × Memory) × S) (Option Graphics)
    init format_top format_bottom schedules =
        allocating (new_configuration a (dimensions top) format_top)
        >>= or_screen_alloc
        >>= λ (top_config : ScreenConfiguration).
            on_error (allocating (drop_configuration a top_config))
              (init_bottom format_bottom schedules top_config)

    unfoldable pub init_default : Schedules → Sys ((W × Memory) × S) (Option Graphics)
    unfolding init
    init_default schedules = init bgr8 bgr8 schedules
