-- ===== src/Tls/Overlap.antt =====
-- The range that the writer of src/ipc/request.rs checks against, and the descriptors behind the
-- command buffer.
use ctru_rt.Base.{
  ℕ, ◌+◌, ◌*◌, ◌/◌, ◌%◌, ◌^◌, ◌<◌, ◌≡◌, arith, List, length, bit_and, bit_or, ◌<<◌, bit_and-mask,
  bit_or_disjoint, bit_or_comm, bit_or_split, bit_or-zero, ◌∙◌, Outcome, ok,
}
use mathlib.Core.Path.{ap₂}
use ctru_rt.Ipc.Writer
use ctru_rt.Ipc.Writer.{CommandBufferWriter}
use ctru_rt.Base
use ctru_rt.Tls.{command_buffer, static_buffer_descriptors, descriptor_address, set}

-- The address of word `i` of the command buffer.
abbrev pub word_address : ℕ → ℕ → ℕ
word_address tls i = command_buffer tls + 4 * i

-- The writer accepts the words 64 to 95 of the command buffer, and word 64 + 2 * i of it for `i`
-- below 16 is the flags of static buffer descriptor `i`, the next word its pointer.
pub write-overlaps :
    (tls i arg : ℕ) (buf : List ℕ)
    → i < 16
    → (word_address tls (64 + 2 * i) ≡ descriptor_address (static_buffer_descriptors tls) i)
      × (word_address tls (65 + 2 * i) ≡ descriptor_address (static_buffer_descriptors tls) i + 4)
      × (Writer.write arg (record { buf = buf; end_ptr = 64 + 2 * i })
          ≡ ok (record { buf = Base.set buf (64 + 2 * i) arg; end_ptr = 65 + 2 * i }))
      × (Writer.write arg (record { buf = buf; end_ptr = 65 + 2 * i })
          ≡ ok (record { buf = Base.set buf (65 + 2 * i) arg; end_ptr = 66 + 2 * i }))
unfolding command_buffer static_buffer_descriptors descriptor_address Writer.write
write-overlaps tls i arg buf h = (omega arith, omega arith, ground arith, ground arith)

flags_sum :
    (n i : ℕ) → n < 2 ^ 18 → i < 16 → bit_or ((n << 14) + 2) (i << 10) ≡ n * 2 ^ 14 + i * 2 ^ 10 + 2
flags_sum n i h k =
    bit_or_split 10 ((n << 14) + 2) (i << 10)
    ∙ ground (
      arith,
      bit_or_disjoint 4 (((n << 14) + 2) / 2 ^ 10) ((i << 10) / 2 ^ 10) (omega arith) (omega arith),
      low,
    )
  where
    low : bit_or (((n << 14) + 2) % 2 ^ 10) ((i << 10) % 2 ^ 10) ≡ 2
    low = ap₂ bit_or two none ∙ bit_or-zero 2
      where
        two : ((n << 14) + 2) % 2 ^ 10 ≡ 2
        two = omega arith

        none : (i << 10) % 2 ^ 10 ≡ 0
        none = omega arith

-- The descriptor that `set` writes: index modulo 16, at its place, with the type 2, the index and
-- the size in bytes, while this fits 18 bits.
pub set_lem :
    (descriptors index data_ptr len size_of : ℕ)
    → len * size_of < 2 ^ 18
    → let (address, d) = set descriptors index data_ptr len size_of in
      (address ≡ descriptors + 8 * (index % 16))
      × (d.ptr ≡ data_ptr)
      × (d.flags ≡ len * size_of * 2 ^ 14 + index % 16 * 2 ^ 10 + 2)
unfolding set
set_lem descriptors index data_ptr len size_of h = (
  omega (arith, bit_and-mask 4 index),
  ground arith,
  rw
      (
        bit_or_comm 2 ((len * size_of) << 14),
        bit_or_disjoint 14 ((len * size_of) << 14) 2 (omega arith) (omega arith),
      )
      (flags_sum (len * size_of) (bit_and index 0xf) h (omega (arith, bit_and-mask 4 index))
        ∙ omega (arith, bit_and-mask 4 index)),
)
