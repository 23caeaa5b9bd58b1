-- ===== src/Ipc/Handles.antt =====
-- The translate parameters as words, and handles that are read back as they were written.
use ctru_rt.Base.{
  ℕ, zero, suc, ◌+◌, ◌-◌, ◌*◌, ◌/◌, ◌%◌, ◌^◌, ◌≤◌, ◌<◌, ◌≡◌, ◌≢◌, ◌⊎◌, inl, inr, refl, ap, sym, ◌∙◌,
  arith,
}
use ctru_rt.Base.{
  dec_lt, List, [], ◌∷◌, length, get_or, set, All, length-set, Outcome, ok, err, panic, ◌>>=◌,
}
use ctru_rt.Base.{Bool, bit_or, bit_or_disjoint, bit_or-zero, ◌<<◌, ◌>>◌}
use ctru_rt.Ipc.Writer
use ctru_rt.Ipc.Writer.{CommandBufferWriter, command_buffer_length}
use ctru_rt.Ipc.WriterLaws.{set_all, write_all-ok}
use ctru_rt.Ipc.Translate
use ctru_rt.Ipc.Translate.{StaticBuffer}
use ctru_rt.Ipc.Reply
use ctru_rt.Ipc.Reply.{CommandBufferReader}
use ctru_rt.Ipc.Marshal.{Writes}

>>=-ok {ℓ} : {A : Type ℓ} (o : Outcome A) → (o >>= λ a. ok a) ≡ o
>>=-ok (ok a) = refl
>>=-ok (err e) = refl
>>=-ok panic = refl

pub write_two :
    (a b : ℕ) (w : CommandBufferWriter)
    → (Writer.write a w >>= Writer.write b) ≡ Writer.write_all (a ∷ b ∷ []) w
unfolding Writer.write_all
write_two a b w =
    elim (Writer.write a w)
      as (λ o. (o >>= Writer.write b) ≡ (o >>= λ v. Writer.write b v >>= λ u. ok u)) [
        | ok v ↦ sym (>>=-ok (Writer.write b v))
        | err e ↦ refl
        | panic ↦ refl
      ]

abbrev pub owned_header : ℕ → ℕ
owned_header n = bit_or (bit_or ((n - 1) << 26) Translate.flag_move_handle) Translate.type_handle

abbrev pub owned_words : List ℕ → List ℕ
owned_words [] = []
owned_words (h ∷ hs) = owned_header (length (h ∷ hs)) ∷ h ∷ hs

pub encode_owned_handles-Writes :
    (hs : List ℕ) → Writes (Translate.encode_owned_handles hs) (owned_words hs)
unfolding Translate.encode_owned_handles Writer.write_all
encode_owned_handles-Writes [] w = refl
encode_owned_handles-Writes (h ∷ hs) w = refl

pub encode_this_process_id-Writes : Writes Translate.encode_this_process_id (0x20 ∷ 0 ∷ [])
unfolding Translate.encode_this_process_id
encode_this_process_id-Writes w = write_two 0x20 0 w

pub encode_borrowed_handle-Writes :
    (h : ℕ) → Writes (Translate.encode_borrowed_handle h) (0 ∷ h ∷ [])
unfolding Translate.encode_borrowed_handle
encode_borrowed_handle-Writes h w = write_two 0 h w

-- The words stand in the buffer from index `i` on.
abbrev pub At : List ℕ → ℕ → List ℕ → Type 0
At buf i [] = Unit
At buf i (x ∷ xs) = (get_or buf i 0 ≡ x) × At buf (suc i) xs

get_or-set_self : (buf : List ℕ) (i x : ℕ) → i < length buf → get_or (set buf i x) i 0 ≡ x
get_or-set_self [] i x h = elim h [ ]
get_or-set_self (b ∷ buf) zero x h = refl
get_or-set_self (b ∷ buf) (suc i) x h = get_or-set_self buf i x (omega arith)

get_or-set_ne : (buf : List ℕ) (i j x : ℕ) → i ≢ j → get_or (set buf i x) j 0 ≡ get_or buf j 0
get_or-set_ne [] i j x h = refl
get_or-set_ne (b ∷ buf) zero zero x h = absurd (h refl)
get_or-set_ne (b ∷ buf) zero (suc j) x h = refl
get_or-set_ne (b ∷ buf) (suc i) zero x h = refl
get_or-set_ne (b ∷ buf) (suc i) (suc j) x h = get_or-set_ne buf i j x (λ e. h (ap suc e))

get_or-set_all :
    (xs buf : List ℕ) (i j : ℕ) → j < i → get_or (set_all buf i xs) j 0 ≡ get_or buf j 0
get_or-set_all [] buf i j h = refl
get_or-set_all (x ∷ xs) buf i j h =
    get_or-set_all xs (set buf i x) (suc i) j (omega arith) ∙ get_or-set_ne buf i j x (omega arith)

pub set_all-At : (xs buf : List ℕ) (i : ℕ) → i + length xs ≤ length buf → At (set_all buf i xs) i xs
set_all-At [] buf i h = tt
set_all-At (x ∷ xs) buf i h = (
  get_or-set_all xs (set buf i x) (suc i) i (omega arith) ∙ get_or-set_self buf i x (omega arith),
  set_all-At xs (set buf i x) (suc i) (omega (arith, length-set buf i x)),
)

pub read_handles-At :
    (hs buf : List ℕ) (i : ℕ)
    → All (λ h. h ≢ 0) hs
    → At buf i hs
    → i + length hs ≤ command_buffer_length
    → Translate.read_handles (length hs) (record { cmdbuf = buf; read_ptr = i })
      ≡ ok (hs, record { cmdbuf = buf; read_ptr = i + length hs })
unfolding Translate.read_handles Reply.read
read_handles-At [] buf i nz at fits = ground arith
read_handles-At (h ∷ hs) buf i nz at fits = ground (arith, read_handles-At hs buf (suc i) nz.1 at.1)

-- The count in the header of moved handles.
owned_header-count : (n : ℕ) → 0 < n → n ≤ 64 → (owned_header n >> 26) + 1 ≡ n
owned_header-count n h k = omega (
  arith,
  bit_or_disjoint 26 ((n - 1) << 26) 16 (omega arith) (omega arith),
  bit_or-zero (bit_or ((n - 1) << 26) 16),
)

-- Owned handles that a request moves are read back by `[OwnedHandle; N]::decode` at the place
-- where `encode` wrote them, in debug builds too: from one to 64 of them, none of them 0, inside
-- the range.
pub decode-encode :
    (hs buf : List ℕ) (i : ℕ) (debug : Bool)
    → length buf ≡ command_buffer_length
    → All (λ h. h ≢ 0) hs
    → 0 < length hs
    → length hs ≤ 64
    → i + 1 + length hs ≤ command_buffer_length
    → (w : CommandBufferWriter) × (Translate.encode_owned_handles hs
          (record { buf = buf; end_ptr = i })
        ≡ ok w)
      × (Translate.decode_owned_handles debug (length hs) (record { cmdbuf = w.buf; read_ptr = i })
          ≡ ok (hs, record { cmdbuf = w.buf; read_ptr = w.end_ptr }))
unfolding Translate.decode_owned_handles Reply.read
decode-encode [] buf i debug l nz p q fits = absurd (omega arith)
decode-encode (h ∷ hs) buf i debug l nz p q fits =
    let ws = owned_words (h ∷ hs) in
    let at = set_all-At ws buf i (omega arith) in
    (
      record { buf = set_all buf i ws; end_ptr = i + length ws },
      ground (
        arith,
        encode_owned_handles-Writes (h ∷ hs) (record { buf = buf; end_ptr = i }),
        write_all-ok ws buf i,
      ),
      ground (
        arith,
        at.0,
        owned_header-count (length (h ∷ hs)),
        read_handles-At (h ∷ hs) (set_all buf i ws) (suc i) nz at.1,
      ),
    )

static_buffer_header_sum :
    (b : StaticBuffer)
    → b.target_id < 16
    → length b.source < 2 ^ 16
    → Translate.static_buffer_header b ≡ length b.source * 2 ^ 14 + b.target_id * 2 ^ 10 + 2
unfolding Translate.static_buffer_header
static_buffer_header_sum b h k =
    rw
      (
        bit_or_disjoint 14 (length b.source << 14) (b.target_id << 10) (omega arith) (omega arith),
        bit_or_disjoint 10 ((length b.source << 14) + (b.target_id << 10)) 2 (omega arith)
            (omega arith),
      )
      (omega arith)

-- A static buffer panics for a target index of 16 or more and for 2^16 words or more. Otherwise it
-- writes a header and the address; the header holds the type 2, the index in bits 10 to 13 and
-- the number of words, not of bytes, from bit 14 on.
pub encode_static_buffer_lem :
    (b : StaticBuffer) (w : CommandBufferWriter)
    → ((16 ≤ b.target_id) ⊎ (2 ^ 16 ≤ length b.source))
        × (Translate.encode_static_buffer b w ≡ panic)
      ⊎ (Translate.encode_static_buffer b w
          ≡ Writer.write_all (Translate.static_buffer_header b ∷ b.source_ptr ∷ []) w)
        × (Translate.static_buffer_header b % 2 ^ 10 ≡ 2)
        × (Translate.static_buffer_header b / 2 ^ 10 % 16 ≡ b.target_id)
        × (Translate.static_buffer_header b / 2 ^ 14 ≡ length b.source)
unfolding Translate.encode_static_buffer
encode_static_buffer_lem b w = elim (dec_lt b.target_id 16) [
  | no big ↦ inl (inl (omega arith), ground arith)
  | yes small ↦ elim (dec_lt (length b.source) (2 ^ 16)) [
    | no long ↦ inl (inr (omega arith), ground arith)
    | yes short ↦
        let sum = static_buffer_header_sum b small short in
        inr (
          ground (arith, write_two (Translate.static_buffer_header b) b.source_ptr w),
          omega (arith, sum),
          omega (arith, sum),
          omega (arith, sum),
        )
  ]
]
