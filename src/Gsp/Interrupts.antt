-- ===== src/Gsp/Interrupts.antt =====
-- `InterruptHeader` and `InterruptInfo` of src/services/gsp/gpu.rs. The shared memory is its words,
-- and a load reads 32 bits.
use ctru_rt.Base.{
  ℕ, ◌+◌, ◌-◌, ◌*◌, ◌/◌, Option, none, some, okay, fail, bit_and, ltb, ◌==◌, if◌then◌else◌, u32,
  from_le_bytes, le_byte, ◌≡◌, ap, ◌∙◌, arith,
}
use ctru_rt.Gsp.Events.{InterruptEvent}
use ctru_rt.Gsp.Events

pub record InterruptHeader : Type 0 where
  pub current_index : ℕ
  pub events_total : ℕ
  pub error : ℕ
  pub unused_byte : ℕ

unfoldable pub header_from : ℕ → InterruptHeader
header_from header = record {
  current_index = le_byte 0 header;
  events_total = le_byte 1 header;
  error = le_byte 2 header;
  unused_byte = le_byte 3 header;
}

unfoldable pub header_into : InterruptHeader → ℕ
header_into h = from_le_bytes (h.current_index) (h.events_total) (h.error) (h.unused_byte)

-- The header that takes one event off the queue.
unfoldable pub acknowledge : InterruptHeader → InterruptHeader
acknowledge header = record {
  current_index = if ltb (header.current_index) 0x34 then header.current_index + 1 else 0;
  events_total = header.events_total - 1;
  error = 0;
  unused_byte = header.unused_byte;
}

abbrev pub Memory : Type 0
Memory = ℕ → ℕ

unfoldable pub load : Memory → ℕ → ℕ
load memory i = u32 (memory i)

unfoldable pub store : ℕ → ℕ → Memory → Memory
store i word memory j = if j == i then word else memory j

-- The queue of a thread starts at this word of the shared memory.
unfoldable pub interrupt_info : ℕ → ℕ
interrupt_info gsp_module_thread_index = gsp_module_thread_index * 0x10

unfoldable pub load_header : Memory → ℕ → InterruptHeader
unfolding load header_from
load_header memory info = header_from (load memory info)

unfoldable pub read_event : Memory → ℕ → InterruptHeader → Option InterruptEvent
unfolding load Events.from_value
read_event memory info header =
    let block_idx = header.current_index / 4 in
    let part_idx = bit_and (header.current_index) 3 in
    let event_packed = load memory (info + (3 + block_idx)) in
    elim (Events.from_value (le_byte (3 - part_idx) event_packed)) [
      | fail _ ↦ none
      | okay event ↦ some event
    ]

pub into-from : (w : ℕ) → header_into (header_from (u32 w)) ≡ u32 w
unfolding header_into header_from
into-from w = omega arith

pub load-store : (i w : ℕ) (memory : Memory) → load (store i w memory) i ≡ u32 w
unfolding load store
load-store i w memory = ground arith

-- Taking an event off survives the way into the word and back: the count is one less, the index
-- steps from 0 to 0x34 and from there to 0, and the error flag is reset.
pub acknowledge_lem :
    (w : ℕ)
    → let h = header_from w in
      let h' = header_from (u32 (header_into (acknowledge h))) in
      (h' ≡ acknowledge h)
      × (h'.events_total ≡ h.events_total - 1)
      × (h'.current_index ≡ (if ltb (h.current_index) 0x34 then h.current_index + 1 else 0))
unfolding header_into header_from acknowledge
acknowledge_lem w = (ground arith, ground arith, ground arith)

-- The header in memory is the one that was loaded where the `compare_exchange` finds it.
pub same_header :
    (memory memory' : Memory) (info : ℕ)
    → load memory' info ≡ header_into (load_header memory info)
    → load_header memory' info ≡ load_header memory info
unfolding load load_header
same_header memory memory' info e = ap header_from (e ∙ into-from (memory info))

pub header_into-load :
    (memory : Memory) (info : ℕ) → header_into (load_header memory info) ≡ load memory info
unfolding load load_header
header_into-load memory info = into-from (memory info)
