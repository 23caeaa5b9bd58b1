-- ===== src/EnumCast/Emit.antt =====
-- The other conversion that the macro emits, `to_value`, and that the two are inverse to each other
-- (ctru-rt-macros/src/enum_cast.rs). A pattern of the emitted match names its variant.
use ctru_rt.Base.{
  ℕ, ◌+◌, ◌<◌, ◌≤◌, List, [], ◌∷◌, ◌≡◌, ◌≢◌, ◌↔◌, arith, refl, ap, All, map, Option, none, some,
  okay,
}
use ctru_rt.EnumCast.{number_variants, match_value}

-- No element is there twice.
abbrev pub Distinct {ℓ} : {A : Type ℓ} → List A → Type ℓ
Distinct [] = Unit
Distinct (x ∷ xs) = All (λ y. y ≢ x) xs × Distinct xs

-- Every literal is at least the number that its variant gets without it.
module _ {A : Type 0} where
  abbrev pub Ascending : List (A × Option ℕ) → ℕ → Type 0
  Ascending [] next_value = Unit
  Ascending ((variant, none) ∷ rest) next_value = Ascending rest (next_value + 1)
  Ascending ((variant, some n) ∷ rest) next_value = (next_value ≤ n) × Ascending rest (n + 1)

  numbers-avoid :
      (variants : List (A × Option ℕ)) (next_value m : ℕ)
      → m < next_value
      → Ascending variants next_value
      → All (λ n. n ≢ m) (map (λ (p : A × ℕ). p.1) (number_variants next_value variants))
  unfolding number_variants
  numbers-avoid [] next_value m low h = tt
  numbers-avoid ((variant, none) ∷ rest) next_value m low h =
      (omega arith, numbers-avoid rest (next_value + 1) m (omega arith) h)
  numbers-avoid ((variant, some n) ∷ rest) next_value m low h =
      (omega (arith, h.0), numbers-avoid rest (n + 1) m (omega (arith, h.0)) h.1)

  -- Then no two variants get the same number.
  pub number_variants-Distinct :
      (variants : List (A × Option ℕ)) (next_value : ℕ)
      → Ascending variants next_value
      → Distinct (map (λ (p : A × ℕ). p.1) (number_variants next_value variants))
  unfolding number_variants
  number_variants-Distinct [] next_value h = tt
  number_variants-Distinct ((variant, none) ∷ rest) next_value h = (
    numbers-avoid rest (next_value + 1) next_value (omega arith) h,
    number_variants-Distinct rest (next_value + 1) h,
  )
  number_variants-Distinct ((variant, some n) ∷ rest) next_value h =
      (numbers-avoid rest (n + 1) n (omega arith) h.1, number_variants-Distinct rest (n + 1) h.1)

module _ {A : Type 0} (same : (x y : A) → Dec (x ≡ y)) where
  -- `emit_to_value`: a match without an arm for the variant does not compile.
  unfoldable pub match_variant : List (A × ℕ) → A → Option ℕ
  match_variant [] x = none
  match_variant ((variant, n) ∷ arms) x = elim (same x variant) [
    | yes _ ↦ some n
    | no _ ↦ match_variant arms x
  ]

  match_variant-avoids :
      (arms : List (A × ℕ)) (x : A) (n m : ℕ)
      → All (λ k. k ≢ m) (map (λ (p : A × ℕ). p.1) arms)
      → match_variant arms x ≡ some n
      → n ≢ m
  unfolding match_variant
  match_variant-avoids [] x n m h e = cc
  match_variant-avoids ((variant, k) ∷ arms) x n m h e =
      ground (arith, match_variant-avoids arms x n m h.1)

  match_value-avoids :
      (arms : List (A × ℕ)) (x y : A) (n : ℕ)
      → All (λ z. z ≢ y) (map (λ (p : A × ℕ). p.0) arms)
      → match_value arms n ≡ okay x
      → x ≢ y
  unfolding match_value
  match_value-avoids [] x y n h e = cc
  match_value-avoids ((variant, k) ∷ arms) x y n h e =
      ground (arith, match_value-avoids arms x y n h.1)

  to_value-from_value :
      (arms : List (A × ℕ)) (x : A) (n : ℕ)
      → Distinct (map (λ (p : A × ℕ). p.0) arms)
      → match_value arms n ≡ okay x
      → match_variant arms x ≡ some n
  unfolding match_value match_variant
  to_value-from_value [] x n h e = cc
  to_value-from_value ((variant, k) ∷ arms) x n h e =
      ground (arith, match_value-avoids arms x variant n h.0, to_value-from_value arms x n h.1)

  from_value-to_value :
      (arms : List (A × ℕ)) (x : A) (n : ℕ)
      → Distinct (map (λ (p : A × ℕ). p.1) arms)
      → match_variant arms x ≡ some n
      → match_value arms n ≡ okay x
  unfolding match_value match_variant
  from_value-to_value [] x n h e = cc
  from_value-to_value ((variant, k) ∷ arms) x n h e =
      ground (arith, match_variant-avoids arms x n k h.0, from_value-to_value arms x n h.1)

  names :
      (variants : List (A × Option ℕ)) (next_value : ℕ)
      → map (λ (p : A × ℕ). p.0) (number_variants next_value variants)
        ≡ map (λ (p : A × Option ℕ). p.0) variants
  unfolding number_variants
  names [] next_value = refl
  names ((variant, none) ∷ rest) next_value = ap (λ t. variant ∷ t) (names rest (next_value + 1))
  names ((variant, some n) ∷ rest) next_value = ap (λ t. variant ∷ t) (names rest (n + 1))

  -- Of an enum whose variants have different names and get different numbers, the emitted
  -- `from_value` returns a variant of a value exactly where the emitted `to_value` gives the value
  -- of the variant.
  pub conversions_inverse :
      (variants : List (A × Option ℕ)) (x : A) (n : ℕ)
      → Distinct (map (λ (p : A × Option ℕ). p.0) variants)
      → Distinct (map (λ (p : A × ℕ). p.1) (number_variants 0 variants))
      → (match_value (number_variants 0 variants) n ≡ okay x)
        ↔ (match_variant (number_variants 0 variants) x ≡ some n)
  conversions_inverse variants x n different numbered =
      let arms = number_variants 0 variants in
      (
        to_value-from_value arms x n (rw (names variants 0) different),
        from_value-to_value arms x n numbered,
      )
