-- ===== src/Graphics/Bounds.antt =====
-- Every screen has its framebuffers in video memory.
use ctru_rt.Base.{◌+◌, ◌*◌, ◌≤◌, ◌%◌, ◌≡◌, refl, arith, ok, some}
use ctru_rt.Alloc.{align_to, from_size_align}
use ctru_rt.Gsp.Screen.{Screen, top, bottom, dimensions}
use ctru_rt.Graphics.{
  FramebufferColorFormat, rgba8, bgr8, rgb565, rgb5a1, rgba4, bytes_per_pixel, framebuffer_size,
  layout_for_size, vram_size,
}

-- For each screen and format there is a layout of the framebuffer, so that the `unwrap` does not
-- panic; the allocator raises its alignment to 16, which the size is a multiple of.
pub framebuffer_layout :
    (screen : Screen) (format : FramebufferColorFormat)
    → let size = framebuffer_size (dimensions screen) format in
      (layout_for_size size ≡ ok (record { size = size; align = 4 }))
      × (align_to (record { size = size; align = 4 }) 16
          ≡ some (record { size = size; align = 16 }))
      × (size % 16 ≡ 0)
unfolding framebuffer_size layout_for_size from_size_align align_to dimensions bytes_per_pixel
framebuffer_layout top rgba8 = (refl, refl, refl)
framebuffer_layout top bgr8 = (refl, refl, refl)
framebuffer_layout top rgb565 = (refl, refl, refl)
framebuffer_layout top rgb5a1 = (refl, refl, refl)
framebuffer_layout top rgba4 = (refl, refl, refl)
framebuffer_layout bottom rgba8 = (refl, refl, refl)
framebuffer_layout bottom bgr8 = (refl, refl, refl)
framebuffer_layout bottom rgb565 = (refl, refl, refl)
framebuffer_layout bottom rgb5a1 = (refl, refl, refl)
framebuffer_layout bottom rgba4 = (refl, refl, refl)

bytes_per_pixel_le : (format : FramebufferColorFormat) → bytes_per_pixel format ≤ 4
unfolding bytes_per_pixel
bytes_per_pixel_le rgba8 = omega arith
bytes_per_pixel_le bgr8 = omega arith
bytes_per_pixel_le rgb565 = omega arith
bytes_per_pixel_le rgb5a1 = omega arith
bytes_per_pixel_le rgba4 = omega arith

-- The two framebuffers of each screen fit in video memory together, in whatever formats.
pub framebuffers_fit :
    (format_top format_bottom : FramebufferColorFormat)
    → 2 * framebuffer_size (dimensions top) format_top
        + 2 * framebuffer_size (dimensions bottom) format_bottom
      ≤ vram_size
unfolding framebuffer_size dimensions bytes_per_pixel
framebuffers_fit format_top format_bottom =
    omega (arith, bytes_per_pixel_le format_top, bytes_per_pixel_le format_bottom)
