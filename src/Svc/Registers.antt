-- ===== src/Svc/Registers.antt =====
-- `FromRegister` and `IntoRegister` of src/svc.rs and src/os/mod.rs: the values of a call in its
-- registers. The associated type `Register` is what the register holds, a word or a pointer.
use ctru_rt.Base.{
  ℕ, ◌-◌, ◌%◌, ◌^◌, ◌<◌, ◌≡◌, ◌≢◌, ap, arith, List, Bool, ltb, if◌then◌else◌, Outcome, ok,
}
use ctru_rt.Machine.{Register, unused, word, pointer}
use ctru_rt.Os.Mem.{MemoryPermission, permission_number}
use ctru_rt.Svc.Calls.{handle_from_register}

-- The integers of Rust's signed types.
pub data ℤ : Type 0 where
  pos negsuc : ℕ → ℤ

pub record FromRegister (A : Type 0) : Type 0 where
  pub from_register : ℕ → Outcome A

pub record IntoRegister (A : Type 0) : Type 0 where
  pub into_register : A → Register

-- One name for every type that has an instance.
abbrev pub from_register : {A : Type 0} ⦃f : FromRegister A⦄ → ℕ → Outcome A
from_register ⦃f⦄ = f.from_register

abbrev pub into_register : {A : Type 0} ⦃i : IntoRegister A⦄ → A → Register
into_register ⦃i⦄ = i.into_register

pub record OwnedHandle : Type 0 where
  pub handle : ℕ

pub record BorrowedHandle : Type 0 where
  pub handle : ℕ

-- `u32`, `usize`, and the address of a function.
instance abbrev pub word_from : FromRegister ℕ
word_from = record { from_register = ok }

instance abbrev pub word_into : IntoRegister ℕ
word_into = record { into_register = word }

-- `reg as i32` and back keep the bits.
abbrev pub i32_of : ℕ → ℤ
i32_of reg = if ltb reg (2 ^ 31) then pos reg else negsuc (2 ^ 32 - 1 - reg)

abbrev pub i32_bits : ℤ → ℕ
i32_bits (pos n) = n % 2 ^ 32
i32_bits (negsuc n) = 2 ^ 32 - 1 - n % 2 ^ 32

instance abbrev pub i32_from : FromRegister ℤ
i32_from = record { from_register = λ reg. ok (i32_of reg) }

instance abbrev pub i32_into : IntoRegister ℤ
i32_into = record { into_register = λ value. word (i32_bits value) }

instance abbrev pub bool_into : IntoRegister Bool
bool_into = record { into_register = λ value. word (if value then 1 else 0) }

instance abbrev pub permission_into : IntoRegister MemoryPermission
permission_into = record { into_register = λ value. word (permission_number value) }

instance abbrev pub pointer_into : IntoRegister (List ℕ)
pointer_into = record { into_register = pointer }

-- `OwnedHandle::new(reg).expect(…)`, and `leak`.
unfoldable pub owned_from_register : ℕ → Outcome OwnedHandle
owned_from_register reg = elim (handle_from_register reg) [
  | ok h ↦ ok (record { handle = h })
  | Outcome.err e ↦ Outcome.err e
  | Outcome.panic ↦ Outcome.panic
]

instance abbrev pub owned_from : FromRegister OwnedHandle
owned_from = record { from_register = owned_from_register }

instance abbrev pub owned_into : IntoRegister OwnedHandle
owned_into = record { into_register = λ value. word (value.handle) }

instance abbrev pub borrowed_into : IntoRegister BorrowedHandle
borrowed_into = record { into_register = λ value. word (value.handle) }

-- The word in a register.
abbrev pub word_in : Register → ℕ
word_in unused = 0
word_in (word w) = w
word_in (pointer ws) = 0

-- What a type can hold.
abbrev pub InI32 : ℤ → Type 0
InI32 (pos n) = n < 2 ^ 31
InI32 (negsuc n) = n < 2 ^ 31

i32_of-i32_bits : (value : ℤ) → InI32 value → i32_of (i32_bits value) ≡ value
i32_of-i32_bits (pos n) h = ground arith
i32_of-i32_bits (negsuc n) h = ground arith

i32_bits-i32_of : (reg : ℕ) → reg < 2 ^ 32 → i32_bits (i32_of reg) ≡ reg
i32_bits-i32_of reg h = ground arith

-- A signed number that an i32 can hold and an open handle come back from the register that they
-- are put in, and every register of 32 bits is that of the signed number that it is read as; the
-- closed handle is refused.
pub registers_lem :
    (value : ℤ) (h reg : ℕ)
    → InI32 value
    → h ≢ 0
    → reg < 2 ^ 32
    → (from_register {A = ℤ} (word_in (into_register value)) ≡ ok value)
      × (from_register {A = OwnedHandle}
            (word_in (into_register {A = OwnedHandle} (record { handle = h })))
          ≡ ok (record { handle = h }))
      × (word_in (into_register (i32_of reg)) ≡ reg)
      × (from_register {A = OwnedHandle} 0 ≡ Outcome.panic)
unfolding owned_from_register handle_from_register
registers_lem value h reg low ne small =
    (ap ok (i32_of-i32_bits value low), ground arith, i32_bits-i32_of reg small, ground arith)
