-- ===== src/Env/Laws.antt =====
-- What the iterator over the arguments returns.
use ctru_rt.Base.{ℕ, zero, suc, ◌+◌, ◌<◌, ◌≡◌, ◌≢◌, refl, ap, sym, ◌∙◌, arith, List, [], ◌∷◌, some}
use ctru_rt.Env.{Memory, Slice, find_end, collect, size_hint}

-- The arguments in memory as the loader packs them: strings of the given lengths, each with no zero
-- byte and a zero behind it.
pub data Packed (memory : Memory) : ℕ → List ℕ → Type 0 where
  end : {address : ℕ} → Packed memory address []
  string :
      {address n : ℕ} {ns : List ℕ}
      → ((i : ℕ) → i < n → memory (address + i) ≢ 0)
      → memory (address + n) ≡ 0
      → Packed memory (address + (n + 1)) ns
      → Packed memory address (n ∷ ns)

find_end_lem :
    (fuel : ℕ) (memory : Memory) (address i k : ℕ)
    → ((j : ℕ) → j < i + k → memory (address + j) ≢ 0)
    → memory (address + (i + k)) ≡ 0
    → k < fuel
    → find_end fuel memory address i ≡ some (i + k)
unfolding find_end
find_end_lem zero memory address i k h z f = absurd (omega arith)
find_end_lem (suc fuel) memory address i zero h z f =
    let here : i + 0 ≡ i = omega arith in ground (arith, ap (λ t. memory (address + t)) here)
find_end_lem (suc fuel) memory address i (suc k) h z f =
    let step : i + suc k ≡ i + 1 + k = omega arith in
    ground (
      arith,
      h i (omega arith),
      find_end_lem fuel memory address (i + 1) k (λ j p. h j (omega arith))
          (ap (λ t. memory (address + t)) (sym step) ∙ z),
    )

-- The slices that the source returns for strings of these lengths from an address on.
abbrev pub shifted : ℕ → List ℕ → List Slice
shifted address [] = []
shifted address (n ∷ ns) =
    record { start = address + (n + 1); len = n } ∷ shifted (address + (n + 1)) ns

abbrev pub count : List ℕ → ℕ
count [] = 0
count (n ∷ ns) = suc (count ns)

abbrev pub Below : ℕ → List ℕ → Type 0
Below fuel [] = Unit
Below fuel (n ∷ ns) = (n < fuel) × Below fuel ns

-- Over arguments that are packed in memory the loop ends after one slice for each, as many as
-- `size_hint` says, and each slice has the length of its argument; but it starts behind the
-- terminator of the argument, where the next one starts, and not at the argument.
pub collect_lem :
    (memory : Memory) (fuel address : ℕ) (ns : List ℕ)
    → Packed memory address ns
    → Below fuel ns
    → (collect (suc (count ns)) fuel memory (record { length = count ns; arguments = address })
        ≡ some (shifted address ns))
      × ((size_hint (record { length = count ns; arguments = address })).0 ≡ count ns)
unfolding collect size_hint
collect_lem memory fuel address [] p b = (ground arith, refl)
collect_lem memory fuel address (n ∷ ns) (string nonzero z p) b = (
  ground (
    arith,
    find_end_lem fuel memory address 0 n (λ j q. nonzero j (omega arith))
        (ap (λ t. memory (address + t)) start ∙ z) b.0,
    (collect_lem memory fuel (address + (n + 1)) ns p b.1).0,
  ),
  refl,
)
  where
    start : 0 + n ≡ n
    start = omega arith
