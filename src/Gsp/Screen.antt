-- ===== src/Gsp/Screen.antt =====
-- `Screen`, `ScreenDimensions` and `FramebufferIndex` of src/services/gsp/gpu.rs.
use ctru_rt.Base.{ℕ, [], ◌∷◌, none, bit_or, ◌<<◌, Result}
use ctru_rt.EnumCast.{number_variants, match_value}

pub data Screen : Type 0 where
  top bottom : Screen

unfoldable pub screen_value : Screen → ℕ
screen_value top = 0
screen_value bottom = 1

pub record ScreenDimensions : Type 0 where
  pub width : ℕ
  pub height : ℕ

unfoldable pub dimensions : Screen → ScreenDimensions
dimensions top = record { width = 240; height = 400 }
dimensions bottom = record { width = 240; height = 320 }

unfoldable pub dimensions_register : Screen → ℕ
unfolding dimensions
dimensions_register screen = bit_or ((dimensions screen).height << 16) ((dimensions screen).width)

pub data FramebufferIndex : Type 0 where
  first second : FramebufferIndex

unfoldable pub index_value : FramebufferIndex → ℕ
index_value first = 0
index_value second = 1

unfoldable pub index_from_value : ℕ → Result FramebufferIndex ℕ
unfolding number_variants match_value
index_from_value = match_value (number_variants 0 ((first, none) ∷ (second, none) ∷ []))

unfoldable pub swap : FramebufferIndex → FramebufferIndex
swap first = second
swap second = first
