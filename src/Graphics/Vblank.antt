-- ===== src/Graphics/Vblank.antt =====
-- The loop that waits for the first screen's interrupt, against its rounds.
use ctru_rt.Base.{
  ℕ, true, false, List, [], ◌∷◌, Option, none, some, Outcome, ok, err, panic, ◌≡◌, ◌↔◌, refl, ap,
  ◌∙◌, arith, Bool-cases, inl, inr,
}
use ctru_rt.Machine.{Machine}
use ctru_rt.Gsp.Interrupts.{Memory}
use ctru_rt.Gsp.Events
use ctru_rt.Gsp.Events.{InterruptEvent}
use ctru_rt.Gsp.Queue
use ctru_rt.Gsp.Gpu.{Gpu}
use ctru_rt.Graphics.Init.{next_event, wait_vblank0}

module _ {W : Type 0} (m : Machine W) (gpu : Gpu) where
  -- The rounds up to the first whose events have the interrupt in them.
  pub data Waits : List (ℕ × Queue.Schedule) → W × Memory → W × Memory → Type 0 where
    seen :
        {fuel events : ℕ} {schedule : Queue.Schedule} {rounds : List (ℕ × Queue.Schedule)}
        {s t : W × Memory}
        → next_event m gpu fuel schedule s ≡ (ok (some events), t)
        → Events.contains events InterruptEvent.v_blank0 ≡ true
        → Waits ((fuel, schedule) ∷ rounds) s t
    unseen :
        {fuel events : ℕ} {schedule : Queue.Schedule} {rounds : List (ℕ × Queue.Schedule)}
        {s t u : W × Memory}
        → next_event m gpu fuel schedule s ≡ (ok (some events), t)
        → Events.contains events InterruptEvent.v_blank0 ≡ false
        → Waits rounds t u
        → Waits ((fuel, schedule) ∷ rounds) s u

  Waits-returns :
      (rounds : List (ℕ × Queue.Schedule)) (s t : W × Memory)
      → Waits rounds s t
      → wait_vblank0 m gpu rounds s ≡ (ok (some tt), t)
  unfolding wait_vblank0
  Waits-returns [] s t w = elim w [ ]
  Waits-returns ((fuel, schedule) ∷ rounds) s t (seen e c) = rw (e, c) refl
  Waits-returns ((fuel, schedule) ∷ rounds) s u (unseen e c w) =
      rw (e, c) (Waits-returns rounds _ u w)

  returns-Waits :
      (rounds : List (ℕ × Queue.Schedule)) (s t : W × Memory)
      → wait_vblank0 m gpu rounds s ≡ (ok (some tt), t)
      → Waits rounds s t
  unfolding wait_vblank0
  returns-Waits [] s t e = absurd (ground arith)
  returns-Waits ((fuel, schedule) ∷ rounds) s t e =
      go (next_event m gpu fuel schedule s) refl (λ u. returns-Waits rounds u t)
    where
      go :
          (r : Outcome (Option ℕ) × (W × Memory))
          → next_event m gpu fuel schedule s ≡ r
          → ((u : W × Memory) → wait_vblank0 m gpu rounds u ≡ (ok (some tt), t) → Waits rounds u t)
          → Waits ((fuel, schedule) ∷ rounds) s t
      go (ok (some events), u) n rest =
          elim (Bool-cases (Events.contains events InterruptEvent.v_blank0)) [
            | inl c ↦
                let here : u ≡ t = ground (arith, e, n, c) in
                seen (n ∙ ap (λ v. (ok (some events), v)) here) c
            | inr c ↦ unseen n c (rest u (ground (arith, e, n, c)))
          ]
      go (ok none, u) n rest = absurd (ground (arith, n, e))
      go (err x, u) n rest = absurd (ground (arith, n, e))
      go (panic, u) n rest = absurd (ground (arith, n, e))

  -- The loop returns exactly where some round, the first such, has the interrupt among its events,
  -- and the rounds before it have ended without it.
  pub wait_vblank0-Waits :
      (rounds : List (ℕ × Queue.Schedule)) (s t : W × Memory)
      → (wait_vblank0 m gpu rounds s ≡ (ok (some tt), t)) ↔ Waits rounds s t
  wait_vblank0-Waits rounds s t = (returns-Waits rounds s t, Waits-returns rounds s t)
