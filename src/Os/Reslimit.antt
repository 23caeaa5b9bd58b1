-- ===== src/Os/Reslimit.antt =====
-- src/os/reslimit.rs. An i64 is its 64-bit pattern, in memory two words with the low one first;
-- the subtraction is that of release builds, which wraps.
use ctru_rt.Base.{ℕ, ◌+◌, ◌-◌, ◌*◌, ◌^◌, u64, List, [], ◌∷◌, get_or, ◌≡◌, refl}
use ctru_rt.Machine.{Machine, Sys, ◌>>=◌, pure}
use ctru_rt.Svc.Calls.{
  get_resource_limit, get_resource_limit_values, get_resource_limit_current_values,
}

pub data LimitType : Type 0 where
  priority memory_allocatable threads events mutexes semaphores timers : LimitType
  shared_memory_handles address_arbiters cpu_time : LimitType

unfoldable pub limit_type_number : LimitType → ℕ
limit_type_number priority = 0
limit_type_number memory_allocatable = 1
limit_type_number threads = 2
limit_type_number events = 3
limit_type_number mutexes = 4
limit_type_number semaphores = 5
limit_type_number timers = 6
limit_type_number shared_memory_handles = 7
limit_type_number address_arbiters = 8
limit_type_number cpu_time = 9

pub record Limit : Type 0 where
  pub type_ : LimitType
  pub limits_handle : ℕ

abbrev pub first_i64 : List ℕ → ℕ
first_i64 words = get_or words 0 0 + get_or words 1 0 * 2 ^ 32

module _ {W : Type 0} (m : Machine W) where
  unfoldable pub limit : Limit → Sys W ℕ
  limit l = do
    value ←
        get_resource_limit_values m l.limits_handle (0 ∷ 0 ∷ []) (limit_type_number l.type_ ∷ [])
    pure (first_i64 value)

  unfoldable pub current : Limit → Sys W ℕ
  current l = do
    value ←
        get_resource_limit_current_values m l.limits_handle (0 ∷ 0 ∷ [])
          (limit_type_number l.type_ ∷ [])
    pure (first_i64 value)

  unfoldable pub remaining : Limit → Sys W ℕ
  remaining l = do current ← current l; limit ← limit l; pure (u64 (limit + 2 ^ 64 - current))

  -- `ProcessLimits` is the handle that it owns.
  unfoldable pub process_limits : ℕ → Sys W ℕ
  process_limits process_handle = get_resource_limit m process_handle

abbrev pub memory_allocatable_limit : ℕ → Limit
memory_allocatable_limit handle = record { type_ = memory_allocatable; limits_handle = handle }

-- `ProcessLimits::get`
unfoldable pub get : ℕ → LimitType → Limit
get handle type_ = record { type_ = type_; limits_handle = handle }

-- `memory_allocatable` is one of them.
memory_allocatable-get :
    (handle : ℕ) → memory_allocatable_limit handle ≡ get handle memory_allocatable
unfolding get
memory_allocatable-get handle = refl
