-- ===== src/Thread/Packet.antt =====
-- What a new thread is passed, and what it runs (src/thread.rs): the boxed closure, and the place of
-- its value. `S` is the state of the allocator with the boxes in it, `E` what a closure is.
use ctru_rt.Base.{ℕ, ◌≡◌, arith, Option, none, some}
use ctru_rt.Machine.{Machine}
use ctru_rt.Svc.System.{exit_thread}

-- The operations of `Box`: `into_raw` of a new box, and `from_raw`, which gives nothing for an
-- address that is no box.
pub record Boxes (E S : Type 0) : Type 0 where
  pub into_raw : E → S → ℕ × S
  pub from_raw : ℕ → S → Option (E × S)
  pub raw_back :
      (e : E) (s : S) → let (argument, s') = into_raw e s in from_raw argument s' ≡ some (e, s)

pub record ThreadPacket (E : Type 0) : Type 0 where
  pub entry_point : E

module _ {E S : Type 0} (boxes : Boxes E S) where
  -- `ThreadPacket::new` and `into_argument`: the packet with its closure.
  unfoldable pub into_argument : ThreadPacket E → S → ℕ × S
  into_argument packet s = boxes.into_raw packet.entry_point s

  unfoldable pub from_argument : ℕ → S → Option (ThreadPacket E × S)
  from_argument argument s = elim (boxes.from_raw argument s) [
    | none ↦ none
    | some p ↦ some (record { entry_point = p.0 }, p.1)
  ]

  module _ {W : Type 0} (m : Machine W) (run : E → W × S → W × S) where
    -- Behind the closure: the thread exits.
    abbrev exits : W × S → W × S
    exits (w, s) = (exit_thread m w, s)

    -- `_ctru_rt_thread_start`
    unfoldable pub thread_start : ℕ → W × S → Option (W × S)
    unfolding from_argument
    thread_start argument (w, s) = elim (from_argument argument s) [
      | none ↦ none
      | some p ↦ some (exits (run p.0.entry_point (w, p.1)))
    ]

    -- A thread that is started with the argument of a packet takes its box back, runs its closure
    -- once and exits.
    pub thread_start-into_argument :
        (packet : ThreadPacket E) (w : W) (s : S)
        → let (argument, s') = into_argument packet s in
          thread_start argument (w, s') ≡ some (exits (run packet.entry_point (w, s)))
    unfolding thread_start into_argument from_argument
    thread_start-into_argument packet w s = ground (arith, boxes.raw_back packet.entry_point s)

-- The closure that `spawn` boxes: `store` of the value at the place of the return value.
pub record ReturnValue : Type 0 where
  pub place : ℕ

unfoldable pub new : ℕ → ReturnValue
new ptr = record { place = ptr }

unfoldable pub store : {T S : Type 0} → (ℕ → T → S → S) → ReturnValue → T → S → S
store write r return_value s = write r.place return_value s
