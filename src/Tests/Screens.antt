-- ===== src/Tests/Screens.antt =====
-- The GPU's shared memory at concrete words.
use ctru_rt.Base.{
  true, ◌^◌, ◌≤◌, ℕ, ◌<◌, [], ◌∷◌, ◌≡◌, arith, Option, some, false, ◌==◌, if◌then◌else◌,
}
use mathlib.Core.Equiv.{IsEquiv}
use ctru_rt.Gsp.EventSets.{EventWord, members, members-IsEquiv}
use ctru_rt.Gsp.Framebuffer
use ctru_rt.Gsp.Events.{InterruptEvent, ppf, dma, empty, contains, add, to_value}
use ctru_rt.Gsp.Screen.{first}
use ctru_rt.Gsp.Interrupts.{Memory, header_from, interrupt_info, load, load_header}
use ctru_rt.Gsp.Queue.{Schedule, pop_interrupt, drain}
use ctru_rt.Gsp.Queue.Pop.{Ends, Popped, pop_interrupt_lem}
use ctru_rt.Gsp.Queue.Drain.{drain_lem}
use ctru_rt.Gsp.Framebuffer.{trigger_update}
use ctru_rt.Gsp.Framebuffer.Trigger.{memory_after, Triggered, trigger_update_lem}

-- Two events, DMA and PPF, in the queue of thread 0; a framebuffer header with index 1 at word 128.
abbrev memory : Memory
memory i = if i == 0 then 0x200 else if i == 3 then 0x0604_0000 else if i == 128 then 1 else 0

-- The GSP adds an event in between.
abbrev third_event : Memory → Memory
third_event m i = if i == 0 then 0x300 else m i

abbrev schedule : Schedule
schedule = (λ m. m, third_event) ∷ []

pop_interrupt_lem_example :
    (event : Option InterruptEvent) × (memory' : Memory) × (rest : Schedule) × (pop_interrupt 0
        schedule memory
      ≡ some (event, memory', rest))
    × Popped (interrupt_info 0) schedule memory event memory'
pop_interrupt_lem_example = pop_interrupt_lem 0 schedule memory

two_events : (load_header memory (interrupt_info 0)).events_total < 3
unfolding load_header load header_from interrupt_info
two_events = omega arith

drain_lem_example :
    (set : ℕ) × (memory' : Memory) × (drain 3 0 [] memory 0 ≡ some (set, memory'))
    × Ends memory' (interrupt_info 0) (load_header memory' (interrupt_info 0))
drain_lem_example = drain_lem 3 0 memory 0 two_events

abbrev turns : Framebuffer.Schedule
turns = (third_event, false) ∷ []

trigger_update_lem_example :
    (n : ℕ) × (memory' : Memory) × (n ≤ 1)
    × (trigger_update 128 first turns memory ≡ some memory')
    × Triggered 128 first (memory_after n turns memory) memory'
trigger_update_lem_example = trigger_update_lem 128 first turns memory

-- The set of PSC0 and PPF.
abbrev two_bits : EventWord
two_bits = (0x11, omega arith)

members-IsEquiv_example :
    IsEquiv members
    × (members two_bits ppf ≡ true)
    × (contains empty ppf ≡ false)
    × (contains (add 0x11 ppf) dma ≡ members two_bits dma)
    × (add 0x11 ppf < 2 ^ 7)
unfolding to_value
members-IsEquiv_example = members-IsEquiv two_bits ppf dma
