-- ===== src/Errf/Message.antt =====
-- The text of a report, from the string to the words that are sent.
use ctru_rt.Base.{
  ℕ, zero, suc, ◌*◌, ◌-◌, ◌<◌, ◌^◌, min, ◌≡◌, refl, ap, ◌∙◌, arith, List, [], ◌∷◌, ◌++◌, All,
  length, length-append, length-take, length-replicate, take, take-min, drop-replicate, All-append,
  All-take, All-replicate, drop, replicate,
}
use ctru_rt.Srv.Laws.{word_bytes, word_bytes-from}
use ctru_rt.Errf.{ErrorInfo, words_from, as_words, message_from}

-- The bytes of the words.
abbrev pub bytes_of : List ℕ → List ℕ
bytes_of [] = []
bytes_of (w ∷ ws) = word_bytes w ++ bytes_of ws

bytes_of-words_from :
    (n : ℕ) (bytes : List ℕ)
    → length bytes ≡ 4 * n
    → All (λ b. b < 2 ^ 8) bytes
    → bytes_of (words_from bytes) ≡ bytes
unfolding words_from
bytes_of-words_from n [] l h = refl
bytes_of-words_from n (b0 ∷ []) l h = absurd (omega (arith, l))
bytes_of-words_from n (b0 ∷ b1 ∷ []) l h = absurd (omega (arith, l))
bytes_of-words_from n (b0 ∷ b1 ∷ b2 ∷ []) l h = absurd (omega (arith, l))
bytes_of-words_from zero (b0 ∷ b1 ∷ b2 ∷ b3 ∷ bytes) l h = absurd (omega (arith, l))
bytes_of-words_from (suc n) (b0 ∷ b1 ∷ b2 ∷ b3 ∷ bytes) l (h0, (h1, (h2, (h3, h)))) =
    ap (λ l. l ++ bytes_of (words_from bytes)) (word_bytes-from b0 b1 b2 b3 h0 h1 h2 h3)
    ∙ ap (λ l. b0 ∷ b1 ∷ b2 ∷ b3 ∷ l) (bytes_of-words_from n bytes (omega (arith, l)) h)

length-words_from : (n : ℕ) (bytes : List ℕ) → length bytes ≡ 4 * n → length (words_from bytes) ≡ n
unfolding words_from
length-words_from n [] l = omega (arith, l)
length-words_from n (b0 ∷ []) l = absurd (omega (arith, l))
length-words_from n (b0 ∷ b1 ∷ []) l = absurd (omega (arith, l))
length-words_from n (b0 ∷ b1 ∷ b2 ∷ []) l = absurd (omega (arith, l))
length-words_from zero (b0 ∷ b1 ∷ b2 ∷ b3 ∷ bytes) l = absurd (omega (arith, l))
length-words_from (suc n) (b0 ∷ b1 ∷ b2 ∷ b3 ∷ bytes) l =
    ap suc (length-words_from n bytes (omega (arith, l)))

-- Of a text of bytes, the field holds the first 0x5f bytes and then zeros up to its 0x60 bytes, so
-- that at least one zero ends it.
pub message_from_lem :
    (message : List ℕ)
    → message_from message ≡ take 0x5f message ++ replicate (0x60 - min (length message) 0x5f) 0
unfolding message_from
message_from_lem message =
    let size = min (length message) 0x5f in
    ap (λ l. l ++ drop size (replicate 0x60 0)) (take-min 0x5f message)
    ∙ ap (λ l. take 0x5f message ++ l) (drop-replicate size 0x60 0)

message_from-length : (message : List ℕ) → length (message_from message) ≡ 0x60
message_from-length message =
    let n = min (length message) 0x5f in
    ap length (message_from_lem message)
    ∙ length-append (take 0x5f message) (replicate (0x60 - n) 0)
    ∙ omega (arith, length-take 0x5f message, length-replicate {A = ℕ} (0x60 - n) 0)

message_from-bytes :
    (message : List ℕ) → All (λ b. b < 2 ^ 8) message → All (λ b. b < 2 ^ 8) (message_from message)
message_from-bytes message h = rw (message_from_lem message) (
    All-append (λ b. b < 2 ^ 8) (take 0x5f message) _ (All-take _ 0x5f message h)
      (All-replicate _ (0x60 - min (length message) 0x5f) 0 (omega arith)))

-- A report is 32 words, and the last 24 of them hold the field of the text byte by byte.
pub as_words-message :
    (padding : ℕ) (info : ErrorInfo) (message : List ℕ)
    → All (λ b. b < 2 ^ 8) message
    → info.failure_message ≡ message_from message
    → (length (as_words padding info) ≡ 32)
      × (bytes_of (drop 8 (as_words padding info))
          ≡ take 0x5f message ++ replicate (0x60 - min (length message) 0x5f) 0)
unfolding as_words
as_words-message padding info message h e = (
  omega (
    arith,
    length-words_from 24 info.failure_message (ap length e ∙ message_from-length message),
  ),
  rw e (
      bytes_of-words_from 24 (message_from message) (message_from-length message)
        (message_from-bytes message h)
      ∙ message_from_lem message),
)
