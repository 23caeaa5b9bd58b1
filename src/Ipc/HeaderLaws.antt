-- ===== src/Ipc/HeaderLaws.antt =====
-- The fields of a header word.
use ctru_rt.Base.{ℕ, ◌+◌, ◌*◌, ◌/◌, ◌%◌, ◌^◌, ◌<◌, ◌≡◌, arith, bit_and, bit_or_disjoint}
use ctru_rt.Base.{bit_and-mask, ◌<<◌, ◌>>◌}
use ctru_rt.Ipc.Header

pub new_sum : (c n t : ℕ) → c < 2 ^ 16 → Header.new c n t ≡ c * 2 ^ 16 + n % 64 * 2 ^ 6 + t % 64
unfolding Header.new
new_sum c n t h =
    rw
      (
        bit_and-mask 6 n,
        bit_and-mask 6 t,
        bit_or_disjoint 16 (c << 16) ((n % 64) << 6) (omega arith) (omega arith),
        bit_or_disjoint 6 ((c << 16) + ((n % 64) << 6)) ((t % 64) << 0) (omega arith) (omega arith),
      )
      (omega arith)

-- A header of a command of 16 bits gives back the command and, where they fit six bits, its two
-- counts; a larger count is kept modulo 64.
pub header_fields-new :
    (c n t : ℕ)
    → c < 2 ^ 16
    → (Header.command_id (Header.new c n t) ≡ c)
      × (Header.normal_param_words (Header.new c n t) ≡ n % 64)
      × (Header.translate_param_words (Header.new c n t) ≡ t % 64)
unfolding Header.command_id Header.normal_param_words Header.translate_param_words
header_fields-new c n t h =
    let s = new_sum c n t h in
    (
      omega (arith, s),
      omega (arith, s, bit_and-mask 6 (Header.new c n t >> 6)),
      omega (arith, s, bit_and-mask 6 (Header.new c n t >> 0)),
    )

-- Of a 32-bit word whose bits 12 to 15 are zero the fields make up the whole.
pub new-header_fields :
    (v : ℕ)
    → v < 2 ^ 32
    → v / 2 ^ 12 % 16 ≡ 0
    → Header.new
        (Header.command_id v)
        (Header.normal_param_words v)
        (Header.translate_param_words v)
      ≡ v
unfolding Header.command_id Header.normal_param_words Header.translate_param_words
new-header_fields v h z = omega (
  arith,
  new_sum ((v >> 16) % 2 ^ 16) (bit_and (v >> 6) 0x3f) (bit_and (v >> 0) 0x3f) (omega arith),
  bit_and-mask 6 (v >> 6),
  bit_and-mask 6 (v >> 0),
)
