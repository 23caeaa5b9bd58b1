-- ===== src/Graphics.antt =====
-- src/graphics/mod.rs: the framebuffers of the two screens in video memory, and their presentation.
-- The state of this part is that of the allocator of video memory.
pub mod Bounds
pub mod Init
pub mod Live
pub mod Settled
pub mod Vblank
use ctru_rt.Base.{
  ℕ, ◌+◌, ◌*◌, List, [], ◌∷◌, Option, none, some, Outcome, ok, err, panic, Result, okay, fail,
  bit_or, ◌<<◌, ◌==◌, if◌then◌else◌,
}
use ctru_rt.Machine.{Machine, Sys, ◌>>=◌, ◌>>◌, pure, lift, panics, fails, on_error, outside}
use ctru_rt.Alloc.{Layout, from_size_align, align_to, Allocator}
use ctru_rt.Codes.Level
use ctru_rt.Codes.Summary
use ctru_rt.Codes.Origin.{Module}
use ctru_rt.Codes.Description
use ctru_rt.Codes.ResultCode
use ctru_rt.Gsp.Screen.{Screen, top, bottom, ScreenDimensions, dimensions, FramebufferIndex, first}

pub data FramebufferColorFormat : Type 0 where
  rgba8 bgr8 rgb565 rgb5a1 rgba4 : FramebufferColorFormat

unfoldable pub format_value : FramebufferColorFormat → ℕ
format_value rgba8 = 0
format_value bgr8 = 1
format_value rgb565 = 2
format_value rgb5a1 = 3
format_value rgba4 = 4

unfoldable pub bytes_per_pixel : FramebufferColorFormat → ℕ
bytes_per_pixel rgba8 = 4
bytes_per_pixel bgr8 = 3
bytes_per_pixel _ = 2

pub record Framebuffer : Type 0 where
  pub buffer : Option ℕ
  pub size : ℕ
  pub format : FramebufferColorFormat

abbrev pub vram_start : ℕ
vram_start = 0x1F00_0000

abbrev pub vram_size : ℕ
vram_size = 0x60_0000

-- `.unwrap()` on the layout.
unfoldable pub layout_for_size : ℕ → Outcome Layout
unfolding from_size_align
layout_for_size size = elim (from_size_align size 4) [ none ↦ panic | some layout ↦ ok layout ]

unfoldable pub framebuffer_size : ScreenDimensions → FramebufferColorFormat → ℕ
framebuffer_size dimensions format = dimensions.width * dimensions.height * bytes_per_pixel format

unfoldable pub as_ptr : Framebuffer → ℕ
as_ptr fb = elim fb.buffer [ none ↦ 0 | some buffer ↦ buffer ]

pub record ScreenConfiguration : Type 0 where
  pub format : FramebufferColorFormat
  pub dimensions : ScreenDimensions
  pub fb0 : Framebuffer
  pub fb1 : Framebuffer
  pub active_fb : FramebufferIndex

unfoldable pub stride : ScreenConfiguration → ℕ
stride c = c.dimensions.width * bytes_per_pixel c.format

unfoldable pub mode : ScreenConfiguration → Screen → ℕ
mode c top = bit_or (bit_or (format_value c.format) (1 << 6)) 0b11_0000_0000
mode c bottom = bit_or (format_value c.format) 0b11_0000_0000

-- `ERR_SCREEN_ALLOC`
unfoldable pub err_screen_alloc : ℕ
unfolding Description.to_value
err_screen_alloc =
    ResultCode.new Level.usage Summary.out_of_resource Module.application
      (Description.to_value Description.invalid_result_value)

module _ {S : Type 0} (a : Allocator S) where
  -- `VramAllocator::allocate`; the allocator gives 0 where it has no place.
  unfoldable pub allocate : Layout → Sys S (Option ℕ)
  allocate layout s = elim (align_to layout 16) [
    | none ↦ (ok none, s)
    | some layout ↦
        let (address, s') = a.alloc layout s in
        (if address == 0 then ok none else ok (some address), s')
  ]

  unfoldable pub new_framebuffer :
      ScreenDimensions → FramebufferColorFormat → Sys S (Option Framebuffer)
  new_framebuffer dimensions format =
      lift (layout_for_size (framebuffer_size dimensions format)) >>= λ (layout : Layout).
      allocate layout >>= λ (found : Option ℕ). pure (elim found [
        | none ↦ none
        | some buffer ↦ some (record {
          buffer = some buffer;
          size = framebuffer_size dimensions format;
          format = format;
        })
      ])

  -- `Drop`
  unfoldable pub drop_framebuffer : Framebuffer → Sys S (Unit {0})
  drop_framebuffer fb = elim fb.buffer [
    | none ↦ pure tt
    | some buffer ↦ lift (layout_for_size fb.size) >>= λ (layout : Layout) (s : S).
        (ok tt, a.dealloc buffer layout s)
  ]

  -- The second framebuffer; the first is dropped where there is none.
  unfoldable pub second_framebuffer :
      ScreenDimensions → FramebufferColorFormat → Framebuffer → Sys S (Option ScreenConfiguration)
  second_framebuffer dimensions format fb0 =
      new_framebuffer dimensions format >>= λ (second : Option Framebuffer). elim second [
        | none ↦ drop_framebuffer fb0 >> pure none
        | some fb1 ↦ pure (
            some (record {
              format = format;
              dimensions = dimensions;
              fb0 = fb0;
              fb1 = fb1;
              active_fb = first;
            }))
      ]

  -- `ScreenConfiguration::new`
  unfoldable pub new_configuration :
      ScreenDimensions → FramebufferColorFormat → Sys S (Option ScreenConfiguration)
  new_configuration dimensions format =
      new_framebuffer dimensions format >>= λ (fb0 : Option Framebuffer). elim fb0 [
        | none ↦ pure none
        | some fb0 ↦ second_framebuffer dimensions format fb0
      ]

  unfoldable pub drop_configuration : ScreenConfiguration → Sys S (Unit {0})
  drop_configuration c = drop_framebuffer c.fb0 >> drop_framebuffer c.fb1
