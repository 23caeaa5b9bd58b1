-- ===== src/Gsp/Events.antt =====
-- `InterruptEvent` and `InterruptEventSet` of src/services/gsp/gpu.rs.
use ctru_rt.Base.{ℕ, ◌*◌, ◌/◌, ◌%◌, ◌^◌, max, List, [], ◌∷◌, Option, none, bit_and, bit_or}
use ctru_rt.Base.{◌<<◌, Bool, false, not, ◌||◌, ◌==◌, if◌then◌else◌, Result, okay, ◌≡◌, arith}
use native.Mathlib.Nat.{one-le-pow}
use ctru_rt.Base.{◌≤◌, bit_and-shift, bit_and-mask, bit_or-div, bit_or-mod}
use ctru_rt.EnumCast.{number_variants, match_value}

pub data InterruptEvent : Type 0 where
  psc0 psc1 v_blank0 v_blank1 ppf p3d dma : InterruptEvent

abbrev variants : List (InterruptEvent × Option ℕ)
variants =
    (psc0, none)
    ∷ (psc1, none)
    ∷ (v_blank0, none)
    ∷ (v_blank1, none)
    ∷ (ppf, none)
    ∷ (p3d, none)
    ∷ (dma, none)
    ∷ []

unfoldable pub to_value : InterruptEvent → ℕ
to_value psc0 = 0
to_value psc1 = 1
to_value v_blank0 = 2
to_value v_blank1 = 3
to_value ppf = 4
to_value p3d = 5
to_value dma = 6

unfoldable pub from_value : ℕ → Result InterruptEvent ℕ
unfolding number_variants match_value
from_value = match_value (number_variants 0 variants)

abbrev pub empty : ℕ
empty = 0

-- The set is its u32.
unfoldable pub add : ℕ → InterruptEvent → ℕ
add events event = bit_or events (1 << to_value event)

unfoldable pub contains : ℕ → InterruptEvent → Bool
contains events event = not (bit_and events (1 << to_value event) == 0)

-- The bit of an event in a set.
unfoldable pub bit : ℕ → InterruptEvent → ℕ
bit events event = events / 2 ^ to_value event % 2

bit_and-bit :
    (events : ℕ) (event : InterruptEvent)
    → bit_and events (1 << to_value event) ≡ bit events event * 2 ^ to_value event
unfolding bit to_value
bit_and-bit events psc0 = omega (arith, bit_and-shift 0 events 1, bit_and-mask 1 (events / 1))
bit_and-bit events psc1 = omega (arith, bit_and-shift 1 events 1, bit_and-mask 1 (events / 2))
bit_and-bit events v_blank0 = omega (arith, bit_and-shift 2 events 1, bit_and-mask 1 (events / 4))
bit_and-bit events v_blank1 = omega (arith, bit_and-shift 3 events 1, bit_and-mask 1 (events / 8))
bit_and-bit events ppf = omega (arith, bit_and-shift 4 events 1, bit_and-mask 1 (events / 16))
bit_and-bit events p3d = omega (arith, bit_and-shift 5 events 1, bit_and-mask 1 (events / 32))
bit_and-bit events dma = omega (arith, bit_and-shift 6 events 1, bit_and-mask 1 (events / 64))

bit_of_shift :
    (e e' : InterruptEvent)
    → bit (1 << to_value e) e' ≡ (if to_value e == to_value e' then 1 else 0)
unfolding bit to_value
bit_of_shift e e' = ground arith

pow_pos : (event : InterruptEvent) → 1 ≤ 2 ^ to_value event
pow_pos event = one-le-pow (to_value event) 2 (omega arith)

pub contains-bit :
    (events : ℕ) (event : InterruptEvent) → contains events event ≡ (bit events event == 1)
unfolding contains bit
contains-bit events event = ground (arith, bit_and-bit events event, pow_pos event)

bit-add :
    (events : ℕ) (e e' : InterruptEvent)
    → bit (add events e) e' ≡ max (bit events e') (bit (1 << to_value e) e')
unfolding add bit
bit-add events e e' = rw (bit_or-div (to_value e') events (1 << to_value e)) (bit_or-mod _ _)

from_value-to_value : (e : InterruptEvent) → from_value (to_value e) ≡ okay e
unfolding from_value to_value match_value number_variants
from_value-to_value e = ground arith

pub contains-empty : (e : InterruptEvent) → contains empty e ≡ false
unfolding bit
contains-empty e = ground (arith, contains-bit 0 e)

pub contains-added :
    (events : ℕ) (e e' : InterruptEvent)
    → contains (add events e) e' ≡ (to_value e == to_value e') || contains events e'
unfolding bit
contains-added events e e' = ground (
  arith,
  contains-bit (add events e) e',
  contains-bit events e',
  bit-add events e e',
  bit_of_shift e e',
)

-- An event is in a set it is added to, and the other events are in the set after as they were
-- before; the empty set has none. The rows of `from_value` are those of `to_value`.
pub contains-add :
    (events : ℕ) (e e' : InterruptEvent)
    → (contains empty e ≡ false)
      × (contains (add events e) e' ≡ (to_value e == to_value e') || contains events e')
      × (from_value (to_value e) ≡ okay e)
contains-add events e e' = (contains-empty e, contains-added events e e', from_value-to_value e)
