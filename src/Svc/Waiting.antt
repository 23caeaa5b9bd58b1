-- ===== src/Svc/Waiting.antt =====
-- The waits of src/svc.rs.
use ctru_rt.Base.{ℕ, Bool, true, false, ltb, if◌then◌else◌, List, [], ◌∷◌, length, ◌^◌, ◌≡◌}
use ctru_rt.Base.{arith, ok, panic}
use ctru_rt.Machine.{Machine, unused, word, pointer, Sys, ◌>>=◌, pure, lift}
use ctru_rt.Svc.Timeout
use ctru_rt.Svc.Calls.{svc_unit, svc_word}

abbrev wait_first : Bool
wait_first = false

abbrev wait_all : Bool
wait_all = true

module _ {W : Type 0} (m : Machine W) where
  unfoldable pub sleep_thread : ℕ → Sys W (Unit {0})
  sleep_thread duration w =
      let (r, w') =
        svc_unit m 0x0a (word (Timeout.reg_low duration) ∷ word (Timeout.reg_high duration) ∷ [])
          w in
      (ok tt, w')

  unfoldable pub wait_synchronization : ℕ → ℕ → Sys W (Unit {0})
  wait_synchronization handle timeout =
      svc_unit m 0x24 (
        word handle
        ∷ unused
        ∷ word (Timeout.reg_high timeout)
        ∷ word (Timeout.reg_low timeout)
        ∷ [])

  unfoldable pub wait_synchronization_many : List ℕ → Bool → ℕ → Sys W ℕ
  wait_synchronization_many handles all timeout = svc_word m 0x25 (
      word (Timeout.reg_low timeout)
      ∷ pointer handles
      ∷ word (length handles)
      ∷ word (if all then 1 else 0)
      ∷ word (Timeout.reg_high timeout)
      ∷ [])

  unfoldable pub wait_synchronization_all : List ℕ → ℕ → Sys W (Unit {0})
  wait_synchronization_all handles timeout = do
    _ ← wait_synchronization_many handles wait_all timeout
    pure tt

  -- A negative i32, a pattern from 2^31 on, panics.
  unfoldable pub wait_synchronization_any : List ℕ → ℕ → Sys W ℕ
  wait_synchronization_any handles timeout = do
    signaled ← wait_synchronization_many handles wait_all timeout
    lift (if ltb signaled (2 ^ 31) then ok signaled else panic)

  -- Wherever `wait_synchronization_any` returns an index, the same call as a wait for all of the
  -- handles has succeeded, in the same final state.
  pub any-waits_for_all :
      (handles : List ℕ) (timeout : ℕ) (w w' : W) (i : ℕ)
      → wait_synchronization_any handles timeout w ≡ (ok i, w')
      → wait_synchronization_all handles timeout w ≡ (ok tt, w')
  unfolding wait_synchronization_any wait_synchronization_all
  any-waits_for_all handles timeout w w' i h = ground arith
