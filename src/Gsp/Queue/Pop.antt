-- ===== src/Gsp/Queue/Pop.antt =====
-- What `pop_interrupt` takes from the queue, whatever the GSP writes in between.
use ctru_rt.Base.{
  ℕ, zero, suc, ◌-◌, ◌≤◌, length, [], ◌∷◌, Option, none, some, ◌≡◌, refl, ap, sym, ◌∙◌, arith,
  ℕ_discrete, ◌⊎◌, inl, inr,
}
use ctru_rt.Gsp.Events.{InterruptEvent}
use ctru_rt.Gsp.Interrupts.{
  InterruptHeader, Memory, header_from, header_into, acknowledge, load, store, interrupt_info,
  load_header, read_event, same_header, header_into-load, load-store, acknowledge_lem,
}
use ctru_rt.Gsp.Queue.{
  Turn, quiet, Schedule, Attempt, store_header, attempt, pop_loop, pop_interrupt, returns, retries,
}

-- Nothing is left that `pop_interrupt` takes: the count is 0, or the entry is not an event.
abbrev pub Ends : Memory → ℕ → InterruptHeader → Type 0
Ends memory info header = (header.events_total ≡ 0) ⊎ (read_event memory info header ≡ none)

-- How an attempt returns that has loaded `header`: the count is 0; or the entry, as it stands when
-- it is read, is no event; or it is the event that is returned, and the header, which is still the
-- loaded one at the exchange, is replaced by its acknowledgement, and no other word.
abbrev pub Taken : ℕ → InterruptHeader → Turn → Memory → Option InterruptEvent → Memory → Type 0
Taken info header turn memory event memory' =
    ((event ≡ none) × (header.events_total ≡ 0) × (memory' ≡ memory))
    ⊎ (((event ≡ none)
          × (read_event (turn.0 memory) info header ≡ none)
          × (memory' ≡ turn.0 memory))
        ⊎ ((x : InterruptEvent) × (event ≡ some x)
            × (read_event (turn.0 memory) info header ≡ some x)
            × (1 ≤ header.events_total)
            × (load_header (turn.1 (turn.0 memory)) info ≡ header)
            × (memory' ≡ store info (header_into (acknowledge header)) (turn.1 (turn.0 memory)))
            × ((load_header memory' info).events_total ≡ header.events_total - 1)))

-- One event less is counted after each that is taken.
total-store :
    (info : ℕ) (before : Memory)
    → (load_header
        (store info (header_into (acknowledge (load_header before info))) before)
        info).events_total
      ≡ (load_header before info).events_total - 1
unfolding load_header load header_from
total-store info before =
    ap (λ t. (header_from t).events_total)
      (load-store info (header_into (acknowledge (load_header before info))) before)
    ∙ (acknowledge_lem (load before info)).1

pub attempt-Taken :
    (info : ℕ) (header : InterruptHeader) (turn : Turn) (memory : Memory)
    {event : Option InterruptEvent} {memory' : Memory}
    → header ≡ load_header memory info
    → attempt info header turn memory ≡ returns event memory'
    → Taken info header turn memory event memory'
unfolding attempt store_header
attempt-Taken info header turn memory {event} {memory'} h e =
    go (read_event (turn.0 memory) info header) refl (ℕ_discrete (header.events_total) 0) e
  where
    after : Memory
    after = turn.1 (turn.0 memory)

    stored :
        (x : InterruptEvent)
        → read_event (turn.0 memory) info header ≡ some x
        → ¬ (header.events_total ≡ 0)
        → Dec (load after info ≡ header_into header)
        → attempt info header turn memory ≡ returns event memory'
        → Taken info header turn memory event memory'
    stored x hr n (yes s) a = inr (inr (x, ground arith, hr, omega arith, found, changed, less))
      where
        found : load_header after info ≡ header
        found = same_header memory after info (s ∙ ap header_into h) ∙ sym h

        changed : memory' ≡ store info (header_into (acknowledge header)) after
        changed = ground arith

        less : (load_header memory' info).events_total ≡ header.events_total - 1
        less =
            ap (λ t. (load_header t info).events_total) changed
            ∙ ap
                (λ t.
                  (load_header (store info (header_into (acknowledge t)) after) info).events_total)
                (sym found)
            ∙ total-store info after
            ∙ ap (λ t. t.events_total - 1) found
    stored x hr n (no s) a = absurd (ground arith)

    go :
        (r : Option InterruptEvent)
        → read_event (turn.0 memory) info header ≡ r
        → Dec (header.events_total ≡ 0)
        → attempt info header turn memory ≡ returns event memory'
        → Taken info header turn memory event memory'
    go r hr (yes z) a = inl (ground arith, z, ground arith)
    go none hr (no n) a = inr (inl (ground arith, hr, ground arith))
    go (some x) hr (no n) a = stored x hr n (ℕ_discrete (load after info) (header_into header)) a

attempt-retries :
    (info : ℕ) (header : InterruptHeader) (turn : Turn) (memory : Memory)
    {header' : InterruptHeader} {memory' : Memory}
    → attempt info header turn memory ≡ retries header' memory'
    → (memory' ≡ turn.1 (turn.0 memory)) × (header' ≡ load_header memory' info)
unfolding attempt store_header
attempt-retries info header turn memory e = ground arith

-- Where the GSP is quiet the header is as it was loaded.
pub attempt-quiet :
    (info : ℕ) (header : InterruptHeader) (memory : Memory) {header' : InterruptHeader}
    {memory' : Memory}
    → header ≡ load_header memory info
    → ¬ (attempt info header quiet memory ≡ retries header' memory')
unfolding attempt store_header
attempt-quiet info header memory h e =
    absurd (ground (arith, header_into-load memory info, ap header_into h))

-- The memory behind the first attempts of a schedule, and what the GSP writes in the next one.
abbrev pub memory_after : ℕ → Schedule → Memory → Memory
memory_after zero turns memory = memory
memory_after (suc n) [] memory = memory
memory_after (suc n) (turn ∷ turns) memory = memory_after n turns (turn.1 (turn.0 memory))

abbrev pub turn_after : ℕ → Schedule → Turn
turn_after n [] = quiet
turn_after zero (turn ∷ turns) = turn
turn_after (suc n) (turn ∷ turns) = turn_after n turns

-- `failed` attempts of the schedule have lost to the GSP, and the next one has returned.
abbrev pub Popped : ℕ → Schedule → Memory → Option InterruptEvent → Memory → Type 0
Popped info schedule memory event memory' =
    (failed : ℕ) × (failed ≤ length schedule)
    × Taken info (load_header (memory_after failed schedule memory) info)
        (turn_after failed schedule) (memory_after failed schedule memory) event memory'

PopLoop : ℕ → Schedule → InterruptHeader → Memory → Type 0
PopLoop info schedule header memory =
    (event : Option InterruptEvent) × (memory' : Memory) × (rest : Schedule) × (pop_loop info
        schedule header memory
      ≡ some (event, memory', rest))
    × Popped info schedule memory event memory'

first_attempt :
    (info : ℕ) (header : InterruptHeader) (turn : Turn) (memory : Memory)
    (event : Option InterruptEvent) (memory' : Memory)
    → header ≡ load_header memory info
    → attempt info header turn memory ≡ returns event memory'
    → Taken info (load_header memory info) turn memory event memory'
first_attempt info header turn memory event memory' h e =
    rw (sym h) (attempt-Taken info header turn memory h e)

pop_loop_lem :
    (info : ℕ) (schedule : Schedule) (header : InterruptHeader) (memory : Memory)
    → header ≡ load_header memory info
    → PopLoop info schedule header memory
unfolding pop_loop PopLoop
pop_loop_lem info [] header memory h = go (attempt info header quiet memory) refl
  where
    go : (a : Attempt) → attempt info header quiet memory ≡ a → PopLoop info [] header memory
    go (returns event memory') e = (
      event,
      memory',
      [],
      ground arith,
      (0, omega arith, first_attempt info header quiet memory event memory' h e),
    )
    go (retries header' memory') e = absurd (attempt-quiet info header memory h e)
pop_loop_lem info (turn ∷ turns) header memory h =
    go (attempt info header turn memory) refl
      (λ header' memory'. pop_loop_lem info turns header' memory')
  where
    go :
        (a : Attempt)
        → attempt info header turn memory ≡ a
        → ((header' : InterruptHeader) (memory' : Memory)
            → header' ≡ load_header memory' info
            → PopLoop info turns header' memory')
        → PopLoop info (turn ∷ turns) header memory
    go (returns event memory') e next = (
      event,
      memory',
      turns,
      ground arith,
      (0, omega arith, first_attempt info header turn memory event memory' h e),
    )
    go (retries header' memory') e next =
        let (m, l) = attempt-retries info header turn memory e in
        let (event, memory'', rest, p, (failed, low, q)) = next header' memory' l in
        (event, memory'', rest, ground arith, (suc failed, omega arith, rw (sym m) q))

-- Whatever the GSP writes before an entry is read and before an exchange, `pop_interrupt` returns
-- once it is quiet. Some number of attempts of the schedule have failed, with what the GSP wrote in
-- them as all that has changed, and the next one has loaded the header. It returns `None` where the
-- count of the header is 0 or the entry at its index, as the GSP has left it by then, is no event.
-- Otherwise it returns that event; the header is as it was loaded at the exchange, which replaces
-- it by its acknowledgement and changes no other word, and the count is one less.
pub pop_interrupt_lem :
    (thread : ℕ) (schedule : Schedule) (memory : Memory)
    → (event : Option InterruptEvent) × (memory' : Memory) × (rest : Schedule) × (pop_interrupt
          thread schedule memory
        ≡ some (event, memory', rest))
      × Popped (interrupt_info thread) schedule memory event memory'
unfolding pop_interrupt PopLoop
pop_interrupt_lem thread schedule memory =
    pop_loop_lem (interrupt_info thread) schedule (load_header memory (interrupt_info thread))
      memory refl
