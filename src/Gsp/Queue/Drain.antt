-- ===== src/Gsp/Queue/Drain.antt =====
-- The loop of `wait_event` over a queue that nobody else writes.
use ctru_rt.Base.{ℕ, zero, suc, ◌-◌, ◌<◌, ◌≤◌, [], none, some, ◌≡◌, refl, arith, inl, inr}
use ctru_rt.Gsp.Events.{InterruptEvent}
use ctru_rt.Gsp.Events
use ctru_rt.Gsp.Interrupts.{Memory, interrupt_info, load_header}
use ctru_rt.Gsp.Queue.{quiet, Attempt, attempt, pop_loop, pop_interrupt, drain, returns, retries}
use ctru_rt.Gsp.Queue.Pop.{Ends, attempt-Taken, attempt-quiet}

pop_quiet :
    (info : ℕ) (memory : Memory) {P : Type 0}
    → ((memory' : Memory)
        → pop_loop info [] (load_header memory info) memory ≡ some (none, memory', [])
        → Ends memory' info (load_header memory' info)
        → P)
    → ((x : InterruptEvent) (memory' : Memory)
        → pop_loop info [] (load_header memory info) memory ≡ some (some x, memory', [])
        → 1 ≤ (load_header memory info).events_total
        → (load_header memory' info).events_total ≡ (load_header memory info).events_total - 1
        → P)
    → P
unfolding pop_loop
pop_quiet info memory {P} stops takes =
    go (attempt info (load_header memory info) quiet memory) refl
  where
    go : (a : Attempt) → attempt info (load_header memory info) quiet memory ≡ a → P
    go (retries header' memory') e =
        absurd (attempt-quiet info (load_header memory info) memory refl e)
    go (returns event memory') e =
        elim (attempt-Taken info (load_header memory info) quiet memory refl e) [
          | inl (n, z, m) ↦ stops memory (ground arith) (inl z)
          | inr (inl (n, r, m)) ↦ stops memory (ground arith) (inr r)
          | inr (inr (x, ex, r, t, l, m, d)) ↦ takes x memory' (ground arith) t d
        ]

-- While the GSP is quiet the loop of `wait_event` is over after one turn more than the header
-- counts events, and leaves a queue from which nothing is to be taken.
pub drain_lem :
    (fuel thread : ℕ) (memory : Memory) (events : ℕ)
    → (load_header memory (interrupt_info thread)).events_total < fuel
    → (set : ℕ) × (memory' : Memory) × (drain fuel thread [] memory events ≡ some (set, memory'))
      × Ends memory' (interrupt_info thread) (load_header memory' (interrupt_info thread))
unfolding drain pop_interrupt
drain_lem zero thread memory events h = absurd (omega arith)
drain_lem (suc fuel) thread memory events h =
    pop_quiet (interrupt_info thread) memory (λ memory' e s. (events, memory', ground arith, s))
      (λ x memory' e t l.
        let (set, memory'', p, q) =
          drain_lem fuel thread memory' (Events.add events x) (omega arith) in
        (set, memory'', ground arith, q))
