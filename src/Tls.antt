-- ===== src/Tls.antt =====
-- src/tls.rs: where the command buffer and the static buffer descriptors lie in the thread local
-- storage, by their addresses in bytes, and the descriptor that `set` writes.
pub mod Overlap
use ctru_rt.Base.{ℕ, ◌+◌, ◌*◌, bit_and, bit_or, ◌<<◌, length, List}

unfoldable pub command_buffer : ℕ → ℕ
command_buffer tls = tls + 0x80

unfoldable pub static_buffer_descriptors : ℕ → ℕ
static_buffer_descriptors tls = tls + 0x180

-- `repr(packed)`: two words.
pub record Descriptor : Type 0 where
  pub flags : ℕ
  pub ptr : ℕ

-- `self.descriptors.add(index)`
unfoldable pub descriptor_address : ℕ → ℕ → ℕ
descriptor_address descriptors index = descriptors + 8 * index

-- `StaticBufferDescriptors::set`: the address that is written, and what. The slice is its address,
-- its length and the size of an element.
unfoldable pub set : ℕ → ℕ → ℕ → ℕ → ℕ → ℕ × Descriptor
unfolding descriptor_address
set descriptors index data_ptr len size_of =
    let index = bit_and index 0xf in
    (
      descriptor_address descriptors index,
      record {
        flags = bit_or (bit_or (1 << 1) ((len * size_of) << 14)) (index << 10);
        ptr = data_ptr;
      },
    )
