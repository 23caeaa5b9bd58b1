-- ===== src/Gsp/EventSets.antt =====
-- `InterruptEventSet` of src/services/gsp/gpu.rs as sets: its words of seven bits are the subsets
-- of the events.
use ctru_rt.Base.{
  ℕ, ◌/◌, ◌%◌, ◌^◌, ◌<◌, ◌<<◌, ◌≡◌, refl, ◌∙◌, arith, bit_or, bit_or-div, Bool, true, false, ◌&&◌,
  ◌||◌, ◌==◌, if◌then◌else◌, List, [], ◌∷◌, ap,
}
use mathlib.Core.Path.{fun_ext, ap₂}
use mathlib.Core.HLevel.{Σ_prop_path}
use native.Mathlib.Bridge.{le_prop}
use mathlib.Core.Equiv.{IsEquiv, Iso, iso_to_equiv}
use ctru_rt.Gsp.Events.{
  InterruptEvent, psc0, psc1, v_blank0, v_blank1, ppf, p3d, dma, to_value, empty, add, contains,
  bit, contains-bit, contains-empty, contains-added,
}

-- The words in which no bit is set but those of events.
abbrev pub EventWord : Type 0
EventWord = (events : ℕ) × events < 2 ^ 7

abbrev pub members : EventWord → InterruptEvent → Bool
members s event = contains s.0 event

abbrev insert_if : Bool → InterruptEvent → ℕ → ℕ
insert_if b event events = if b then add events event else events

-- The word of a set, by one call of `add` for each of its events.
abbrev pub word_of : (InterruptEvent → Bool) → ℕ
word_of f = insert_if (f dma) dma (
    insert_if (f p3d) p3d (
      insert_if (f ppf) ppf (
        insert_if (f v_blank1) v_blank1 (
          insert_if (f v_blank0) v_blank0
            (insert_if (f psc1) psc1 (insert_if (f psc0) psc0 empty))))))

contains-insert_if :
    (b : Bool) (event other : InterruptEvent) (events : ℕ)
    → contains (insert_if b event events) other
      ≡ (b && (to_value event == to_value other)) || contains events other
contains-insert_if true event other events = contains-added events event other
contains-insert_if false event other events = refl

insert_if-lt :
    (b : Bool) (event : InterruptEvent) (events : ℕ)
    → events < 2 ^ 7
    → insert_if b event events < 2 ^ 7
unfolding add to_value
insert_if-lt false event events h = h
insert_if-lt true event events h =
    let low : events / 2 ^ 7 ≡ 0 = omega arith in
    let shift : (1 << to_value event) / 2 ^ 7 ≡ 0 = ground arith in
    let none_above : bit_or events (1 << to_value event) / 2 ^ 7 ≡ 0 =
      bit_or-div 7 events (1 << to_value event) ∙ ap₂ bit_or low shift in
    omega (arith, none_above)

contains-word_of :
    (f : InterruptEvent → Bool) (event : InterruptEvent) → contains (word_of f) event ≡ f event
unfolding to_value
contains-word_of f event =
    rw
      (
        contains-insert_if (f dma) dma event _,
        contains-insert_if (f p3d) p3d event _,
        contains-insert_if (f ppf) ppf event _,
        contains-insert_if (f v_blank1) v_blank1 event _,
        contains-insert_if (f v_blank0) v_blank0 event _,
        contains-insert_if (f psc1) psc1 event _,
        contains-insert_if (f psc0) psc0 event _,
        contains-empty event,
      )
      (ground arith)

same_bit :
    (a b : ℕ) (event : InterruptEvent)
    → contains a event ≡ contains b event
    → bit a event ≡ bit b event
unfolding bit
same_bit a b event h = ground (arith, contains-bit a event, contains-bit b event)

same_word :
    (a b : ℕ)
    → a < 2 ^ 7
    → b < 2 ^ 7
    → ((event : InterruptEvent) → contains a event ≡ contains b event)
    → a ≡ b
unfolding bit to_value
same_word a b h k same = omega (
  arith,
  same_bit a b psc0 (same psc0),
  same_bit a b psc1 (same psc1),
  same_bit a b v_blank0 (same v_blank0),
  same_bit a b v_blank1 (same v_blank1),
  same_bit a b ppf (same ppf),
  same_bit a b p3d (same p3d),
  same_bit a b dma (same dma),
)

word_of-lt : (f : InterruptEvent → Bool) → word_of f < 2 ^ 7
word_of-lt f = insert_if-lt (f dma) dma _ (
    insert_if-lt (f p3d) p3d _ (
      insert_if-lt (f ppf) ppf _ (
        insert_if-lt (f v_blank1) v_blank1 _ (
          insert_if-lt (f v_blank0) v_blank0 _
            (insert_if-lt (f psc1) psc1 _ (insert_if-lt (f psc0) psc0 _ (omega arith)))))))

unfoldable events_iso : Iso EventWord (InterruptEvent → Bool)
events_iso = record {
  fun = members;
  inv = λ f. (word_of f, word_of-lt f);
  rinv = λ f. fun_ext (contains-word_of f);
  linv = λ s.
      Σ_prop_path (λ n. le_prop) {u = (word_of (members s), word_of-lt (members s))} {v = s}
        (same_word (word_of (members s)) s.0 (word_of-lt (members s)) s.1
          (contains-word_of (members s)));
}

-- The words of the seven event bits are, by `contains`, just the sets of events: an event is in a
-- word where the bit of its number is set, and each set is that of one word. The empty word is the
-- empty set, and `add` makes the word of the set with one event more.
pub members-IsEquiv :
    (s : EventWord) (event other : InterruptEvent)
    → IsEquiv members
      × (members s event ≡ (s.0 / 2 ^ to_value event % 2 == 1))
      × (contains empty event ≡ false)
      × (contains (add s.0 event) other ≡ (to_value event == to_value other) || members s other)
      × (add s.0 event < 2 ^ 7)
unfolding events_iso bit
members-IsEquiv s event other = (
  (iso_to_equiv events_iso).1,
  contains-bit s.0 event,
  contains-empty event,
  contains-added s.0 event other,
  insert_if-lt true event s.0 s.1,
)

-- `Debug` of the set: the events, in the order of their declaration, that it contains.
abbrev all_events : List InterruptEvent
all_events = psc0 ∷ psc1 ∷ v_blank0 ∷ v_blank1 ∷ ppf ∷ p3d ∷ dma ∷ []

unfoldable pub entries_of : ℕ → List InterruptEvent → List InterruptEvent
entries_of events [] = []
entries_of events (event ∷ more) =
    let rest = entries_of events more in if contains events event then event ∷ rest else rest

unfoldable pub debug_entries : ℕ → List InterruptEvent
unfolding entries_of
debug_entries events = entries_of events all_events

abbrev pub add_all : List InterruptEvent → ℕ
add_all [] = empty
add_all (event ∷ more) = add (add_all more) event

listed : InterruptEvent → List InterruptEvent → Bool
listed event [] = false
listed event (other ∷ more) = (to_value other == to_value event) || listed event more

contains-add_all :
    (event : InterruptEvent) (list : List InterruptEvent)
    → contains (add_all list) event ≡ listed event list
unfolding listed
contains-add_all event [] = contains-empty event
contains-add_all event (other ∷ more) =
    contains-added (add_all more) other event
    ∙ ap (λ b. (to_value other == to_value event) || b) (contains-add_all event more)

listed-entries :
    (events : ℕ) (event : InterruptEvent)
    → listed event (debug_entries events) ≡ contains events event
unfolding listed debug_entries entries_of to_value
listed-entries events psc0 = ground arith
listed-entries events psc1 = ground arith
listed-entries events v_blank0 = ground arith
listed-entries events v_blank1 = ground arith
listed-entries events ppf = ground arith
listed-entries events p3d = ground arith
listed-entries events dma = ground arith

add_all-lt : (list : List InterruptEvent) → add_all list < 2 ^ 7
add_all-lt [] = omega arith
add_all-lt (event ∷ more) = insert_if-lt true event (add_all more) (add_all-lt more)

-- A word of the seven event bits is made again from the events that its `Debug` output lists, by
-- adding them to the empty set.
pub add_all-debug_entries : (events : ℕ) → events < 2 ^ 7 → add_all (debug_entries events) ≡ events
add_all-debug_entries events h =
    same_word (add_all (debug_entries events)) events (add_all-lt (debug_entries events)) h
      (λ event. contains-add_all event (debug_entries events) ∙ listed-entries events event)
