-- ===== src/EnumCast/Laws.antt =====
-- What the emitted conversions have in common, from facts about the table of one enum.
use ctru_rt.Base.{ℕ, List, [], ◌∷◌, ◌≡◌, ◌≢◌, arith, All, okay, fail}
use ctru_rt.EnumCast.{match_value}

module _ {A : Type 0} where
  -- `to_value` gives each variant the number of its arm.
  abbrev pub Agrees : (A → ℕ) → List (A × ℕ) → Type 0
  Agrees to_value = All (λ (p : A × ℕ). to_value p.0 ≡ p.1)

  -- Where the emitted `from_value` returns a variant, its `to_value` is the value.
  pub match_value_sound :
      (to_value : A → ℕ) (arms : List (A × ℕ)) (v : ℕ) {x : A}
      → Agrees to_value arms
      → match_value arms v ≡ okay x
      → to_value x ≡ v
  unfolding match_value
  match_value_sound to_value [] v h e = cc
  match_value_sound to_value ((y, n) ∷ arms) v {x} h e =
      ground (arith, match_value_sound to_value arms v {x = x} h.1)

  -- An `Err` carries the value back, and no variant has it.
  pub match_value-fail :
      (arms : List (A × ℕ)) (v e : ℕ)
      → match_value arms v ≡ fail e
      → (e ≡ v) × All (λ (p : A × ℕ). p.1 ≢ v) arms
  unfolding match_value
  match_value-fail [] v e h = (ground arith, tt)
  match_value-fail ((y, n) ∷ arms) v e h = ground (arith, match_value-fail arms v e)
