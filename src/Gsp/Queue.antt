-- ===== src/Gsp/Queue.antt =====
-- `Sharedmem::pop_interrupt` and `wait_event` of src/services/gsp/gpu.rs. The GSP module writes the
-- same memory: a schedule lists, for each attempt, what it writes between the load of the header and
-- that of the entry, and between the latter and the `compare_exchange`; after the last attempt that
-- is listed it is quiet.
pub mod Pop
pub mod Drain
use ctru_rt.Base.{
  ℕ, zero, suc, ◌-◌, ◌<◌, ◌≤◌, List, [], ◌∷◌, Option, none, some, ◌==◌, if◌then◌else◌, ◌≡◌, refl,
  ap, sym, ◌∙◌, arith, ℕ_discrete, ◌⊎◌, inl, inr, ok,
}
use ctru_rt.Machine.{Machine, Sys, ◌>>◌, outside}
use ctru_rt.Sync.Event
use ctru_rt.Svc.Timeout
use ctru_rt.Gsp.Events.{InterruptEvent}
use ctru_rt.Gsp.Events
use ctru_rt.Gsp.Interrupts.{
  InterruptHeader, Memory, header_from, header_into, acknowledge, load, store, interrupt_info,
  load_header, read_event, load-store, acknowledge_lem, same_header, header_into-load,
}

-- What the GSP writes in one attempt, before the entry is read and after.
abbrev pub Turn : Type 0
Turn = (Memory → Memory) × (Memory → Memory)

abbrev pub quiet : Turn
quiet = (λ m. m, λ m. m)

abbrev pub Schedule : Type 0
Schedule = List Turn

pub data Attempt : Type 0 where
  returns : Option InterruptEvent → Memory → Attempt
  retries : InterruptHeader → Memory → Attempt

-- `compare_exchange` of the header.
unfoldable pub store_header :
    ℕ → InterruptEvent → InterruptHeader → InterruptHeader → Memory → Attempt
store_header info event current new memory =
    if load memory info == header_into current
    then returns (some event) (store info (header_into new) memory)
    else retries (load_header memory info) memory

-- One turn of the loop.
unfoldable pub attempt : ℕ → InterruptHeader → Turn → Memory → Attempt
attempt info header turn memory =
    if header.events_total == 0
    then returns none memory
    else elim (read_event (turn.0 memory) info header) [
      | none ↦ returns none (turn.0 memory)
      | some event ↦ store_header info event header (acknowledge header) (turn.1 (turn.0 memory))
    ]

-- `none`: the turns of the schedule are over and the loop is not.
unfoldable pub pop_loop :
    ℕ → Schedule → InterruptHeader → Memory → Option (Option InterruptEvent × Memory × Schedule)
unfolding attempt store_header
pop_loop info [] header memory = elim (attempt info header quiet memory) [
  | returns event memory' ↦ some (event, memory', [])
  | retries _ _ ↦ none
]
pop_loop info (turn ∷ turns) header memory = elim (attempt info header turn memory) [
  | returns event memory' ↦ some (event, memory', turns)
  | retries header' memory' ↦ pop_loop info turns header' memory'
]

unfoldable pub pop_interrupt :
    ℕ → Schedule → Memory → Option (Option InterruptEvent × Memory × Schedule)
unfolding pop_loop
pop_interrupt thread schedule memory =
    pop_loop (interrupt_info thread) schedule (load_header memory (interrupt_info thread)) memory

-- `while let Some(event) = self.pop_interrupt()`; `none`: the fuel is out.
unfoldable pub drain : ℕ → ℕ → Schedule → Memory → ℕ → Option (ℕ × Memory)
unfolding pop_interrupt
drain zero thread schedule memory events = none
drain (suc fuel) thread schedule memory events = elim (pop_interrupt thread schedule memory) [
  | none ↦ none
  | some (none, memory', rest) ↦ some (events, memory')
  | some (some event, memory', rest) ↦ drain fuel thread rest memory' (Events.add events event)
]

-- `Sharedmem::wait_event`, over the kernel and the shared memory; `ok none` where the fuel is out.
unfoldable pub wait_event :
    {W : Type 0} → Machine W → ℕ → ℕ → ℕ → Schedule → Sys (W × Memory) (Option ℕ)
wait_event m fuel gpu_events thread schedule =
    outside (Event.wait m gpu_events Timeout.forever)
    >> outside (Event.clear m gpu_events)
    >> drain_events fuel thread schedule
  where
    drain_events : {W : Type 0} → ℕ → ℕ → Schedule → Sys (W × Memory) (Option ℕ)
    drain_events fuel thread schedule (w, memory) =
        elim (drain fuel thread schedule memory Events.empty) [
          | none ↦ (ok none, (w, memory))
          | some (set, memory') ↦ (ok (some set), (w, memory'))
        ]
