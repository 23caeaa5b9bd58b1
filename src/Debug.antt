-- ===== src/Debug.antt =====
-- src/debug.rs: the writer of fixed size, and the choice between it and the heap. Formatting is the
-- business of `core::fmt`, which hands a writer the pieces of the text one after another.
pub mod Laws
pub mod Log
use ctru_rt.Base.{
  ℕ, ◌+◌, ◌-◌, min, List, [], ◌∷◌, ◌++◌, length, take, drop, replicate, Bool, true, false,
  if◌then◌else◌,
}
use ctru_rt.Machine.{Machine, Sys, ◌>>◌}
use ctru_rt.Svc.Calls.{output_debug_bytes}
use ctru_rt.Heap.{Heap, initialized}

pub record FixedSizeBufferWriter : Type 0 where
  pub buffer : List ℕ
  pub pos : ℕ

unfoldable pub new : ℕ → FixedSizeBufferWriter
new n = record { buffer = replicate n 0; pos = 0 }

-- The length of `remaining`.
unfoldable pub remaining : FixedSizeBufferWriter → ℕ
remaining w = length w.buffer - w.pos

unfoldable pub occupied : FixedSizeBufferWriter → List ℕ
occupied w = take w.pos w.buffer

-- `copy_from_slice` into the bytes from `pos` on.
abbrev pub copy_at : ℕ → List ℕ → List ℕ → List ℕ
copy_at pos bytes buffer = take pos buffer ++ bytes ++ drop (pos + length bytes) buffer

unfoldable pub write_str : List ℕ → FixedSizeBufferWriter → FixedSizeBufferWriter
unfolding remaining
write_str bytes w =
    let printed = take (min (length bytes) (remaining w)) bytes in
    record {
      buffer = copy_at w.pos printed w.buffer;
      pos = min (w.pos + length printed) (length w.buffer);
    }

-- The pieces of a formatted text.
unfoldable pub write_pieces : List (List ℕ) → FixedSizeBufferWriter → FixedSizeBufferWriter
write_pieces [] w = w
write_pieces (piece ∷ pieces) w = write_pieces pieces (write_str piece w)

abbrev pub concat : List (List ℕ) → List ℕ
concat [] = []
concat (piece ∷ pieces) = piece ++ concat pieces

-- "[INTERNAL] Falling back to heap-less debug write" is an argument.
module _ {W : Type 0} (m : Machine W) (notice : List ℕ) where
  unfoldable pub write_string_fallback : List (List ℕ) → Sys W (Unit {0})
  write_string_fallback args =
      output_debug_bytes m notice >> output_debug_bytes m (occupied (write_pieces args (new 512)))

  unfoldable pub write_fmt : Heap → List (List ℕ) → Sys W (Unit {0})
  write_fmt heap args =
      if initialized heap then output_debug_bytes m (concat args) else write_string_fallback args

-- The macro `early_debug` with arguments.
unfoldable pub early_debug : {W : Type 0} → Machine W → List (List ℕ) → Sys W (Unit {0})
early_debug m args = output_debug_bytes m (occupied (write_pieces args (new 256)))
