-- ===== src/Ipc/WriterLaws.antt =====
-- What a run of writes leaves in the buffer, and when it panics.
use ctru_rt.Base.{ℕ, suc, ◌+◌, ◌≤◌, ◌<◌, ◌≡◌, refl, ◌∙◌, arith}
use ctru_rt.Base.{
  List, [], ◌∷◌, ◌++◌, append_assoc, append-nil, length, set, take, length-set, take-suc-set,
}
use ctru_rt.Base.{Outcome, ok, panic, ◌>>=◌}
use ctru_rt.Ipc.Writer
use ctru_rt.Ipc.Writer.{CommandBufferWriter, command_buffer_length}

-- The buffer after the words have been stored from index `i` on.
abbrev pub set_all : List ℕ → ℕ → List ℕ → List ℕ
set_all buf i [] = buf
set_all buf i (x ∷ xs) = set_all (set buf i x) (suc i) xs

pub length-set_all : (xs buf : List ℕ) (i : ℕ) → length (set_all buf i xs) ≡ length buf
length-set_all [] buf i = refl
length-set_all (x ∷ xs) buf i = length-set_all xs (set buf i x) (suc i) ∙ length-set buf i x

pub take-set_all :
    (xs buf : List ℕ) (i n : ℕ)
    → i + length xs ≡ n
    → n ≤ length buf
    → take n (set_all buf i xs) ≡ take i buf ++ xs
take-set_all [] buf i n e h = let e' : n ≡ i = omega arith in rw (e', append-nil)
take-set_all (x ∷ xs) buf i n e h =
    take-set_all xs (set buf i x) (suc i) n (omega arith) (rw (length-set buf i x) h)
    ∙ rw (take-suc-set buf i x (omega arith), append_assoc)

-- Inside the range the words are stored one after another.
pub write_all-ok :
    (xs buf : List ℕ) (i : ℕ)
    → i + length xs ≤ command_buffer_length
    → Writer.write_all xs (record { buf = buf; end_ptr = i })
      ≡ ok (record { buf = set_all buf i xs; end_ptr = i + length xs })
unfolding Writer.write_all Writer.write
write_all-ok [] buf i h = ground arith
write_all-ok (x ∷ xs) buf i h = ground (arith, write_all-ok xs (set buf i x) (suc i))

-- The first word outside of it panics.
pub write_all-panic :
    (xs buf : List ℕ) (i : ℕ)
    → i ≤ command_buffer_length
    → command_buffer_length < i + length xs
    → Writer.write_all xs (record { buf = buf; end_ptr = i }) ≡ panic
unfolding Writer.write_all Writer.write
write_all-panic [] buf i h k = absurd (omega arith)
write_all-panic (x ∷ xs) buf i h k = ground (arith, write_all-panic xs (set buf i x) (suc i))

pub write_all-append :
    (xs ys : List ℕ) (w : CommandBufferWriter)
    → Writer.write_all (xs ++ ys) w ≡ (Writer.write_all xs w >>= Writer.write_all ys)
unfolding Writer.write_all
write_all-append [] ys w = refl
write_all-append (x ∷ xs) ys w =
    elim (Writer.write x w)
      as (λ o.
        (o >>= Writer.write_all (xs ++ ys))
        ≡ ((o >>= Writer.write_all xs) >>= Writer.write_all ys)) [
          | ok w' ↦ write_all-append xs ys w'
          | Outcome.err e ↦ refl
          | panic ↦ refl
        ]
