-- ===== src/Srv/Laws.antt =====
-- Names as words, and which of several services is taken.
use ctru_rt.Base.{
  ℕ, zero, suc, ◌+◌, ◌-◌, ◌^◌, ◌<◌, ◌≤◌, min, Bool, le_byte, from_le_bytes, All, dec_lt,
  length-take, sym, ◌∙◌, some,
}
use ctru_rt.Base.{
  List, [], ◌∷◌, length, get_or, get_elem?, take, Outcome, ok, err, panic, ◌≡◌, refl, ap, arith,
}
use ctru_rt.Machine.{Machine}
use ctru_rt.Srv.{
  Srv, write_str_param, get_service_handle, try_names, get_service_handle_alternatives,
}

-- The bytes of a word in memory.
abbrev pub word_bytes : ℕ → List ℕ
word_bytes w = le_byte 0 w ∷ le_byte 1 w ∷ le_byte 2 w ∷ le_byte 3 w ∷ []

pub get_or-take : (n i : ℕ) (s : List ℕ) → i < n → get_or (take n s) i 0 ≡ get_or s i 0
get_or-take zero i s h = elim h [ ]
get_or-take (suc n) i [] h = refl
get_or-take (suc n) zero (b ∷ s) h = refl
get_or-take (suc n) (suc i) (b ∷ s) h = get_or-take n i s (omega arith)

get_or_beyond : (i : ℕ) (s : List ℕ) → length s ≤ i → get_or s i 0 ≡ 0
get_or_beyond i [] h = refl
get_or_beyond zero (b ∷ s) h = elim h [ ]
get_or_beyond (suc i) (b ∷ s) h = get_or_beyond i s (omega arith)

get_or-lt : (i : ℕ) (s : List ℕ) → All (λ b. b < 2 ^ 8) s → get_or s i 0 < 2 ^ 8
get_or-lt i [] h = omega arith
get_or-lt zero (b ∷ s) h = h.0
get_or-lt (suc i) (b ∷ s) h = get_or-lt i s h.1

-- A byte of the buffer.
buffer_byte : (i : ℕ) (s : List ℕ) → i < 8 → get_or (take (min 8 (length s)) s) i 0 ≡ get_or s i 0
buffer_byte i s h = elim (dec_lt i (length s)) [
  | yes inside ↦ get_or-take (min 8 (length s)) i s (omega arith)
  | no outside ↦
      get_or_beyond i (take (min 8 (length s)) s) (omega (arith, length-take (min 8 (length s)) s))
      ∙ sym (get_or_beyond i s (omega arith))
]

pub word_bytes-from :
    (a b c d : ℕ)
    → a < 2 ^ 8
    → b < 2 ^ 8
    → c < 2 ^ 8
    → d < 2 ^ 8
    → word_bytes (from_le_bytes a b c d) ≡ a ∷ b ∷ c ∷ d ∷ []
word_bytes-from a b c d ha hb hc hd = ground arith

-- The bytes of the two words are the first eight bytes of the name, zero behind its end, and the
-- length is that of the name, at most eight.
pub write_str_param_lem :
    (s : List ℕ)
    → All (λ b. b < 2 ^ 8) s
    → let ((arg0, arg1), len) = write_str_param s in
      (word_bytes arg0 ≡ get_or s 0 0 ∷ get_or s 1 0 ∷ get_or s 2 0 ∷ get_or s 3 0 ∷ [])
      × (word_bytes arg1 ≡ get_or s 4 0 ∷ get_or s 5 0 ∷ get_or s 6 0 ∷ get_or s 7 0 ∷ [])
      × (len ≡ min 8 (length s))
unfolding write_str_param
write_str_param_lem s h = (
  rw
      (
        buffer_byte 0 s (omega arith),
        buffer_byte 1 s (omega arith),
        buffer_byte 2 s (omega arith),
        buffer_byte 3 s (omega arith),
      )
      (word_bytes-from _ _ _ _ (get_or-lt 0 s h) (get_or-lt 1 s h) (get_or-lt 2 s h)
        (get_or-lt 3 s h)),
  rw
      (
        buffer_byte 4 s (omega arith),
        buffer_byte 5 s (omega arith),
        buffer_byte 6 s (omega arith),
        buffer_byte 7 s (omega arith),
      )
      (word_bytes-from _ _ _ _ (get_or-lt 4 s h) (get_or-lt 5 s h) (get_or-lt 6 s h)
        (get_or-lt 7 s h)),
  refl,
)

module _ {W : Type 0} (m : Machine W) (debug : Bool) (srv : Srv) where
  -- The index counts from `i`, and the name that it finds gave the handle.
  abbrev pub Taken : List (List ℕ) → ℕ → ℕ → ℕ → W → Type 0
  Taken names i h k w' =
      (i ≤ k)
      × (k < i + length names)
      × (name : List ℕ) × (v : W) × (get_elem? names (k - i) ≡ some name)
      × (get_service_handle m debug srv name v ≡ (ok h, w'))

  try_names-Taken :
      (names : List (List ℕ)) (i result : ℕ) (w w' : W) {h k : ℕ}
      → try_names m debug srv names i result w ≡ (ok (h, k), w')
      → Taken names i h k w'
  unfolding try_names
  try_names-Taken [] i result w w' e = absurd (ground arith)
  try_names-Taken (name ∷ names) i result w w' {h} {k} e =
      go (get_service_handle m debug srv name w) refl e
        (λ r v. try_names-Taken names (i + 1) r v w' {h = h} {k = k})
    where
      go :
          (r : Outcome ℕ × W)
          → get_service_handle m debug srv name w ≡ r
          → try_names m debug srv (name ∷ names) i result w ≡ (ok (h, k), w')
          → ((e : ℕ) (v : W)
              → try_names m debug srv names (i + 1) e v ≡ (ok (h, k), w')
              → Taken names (i + 1) h k w')
          → Taken (name ∷ names) i h k w'
      go (ok g, v) a e next =
          let same : i ≡ k = ground arith in
          let zeroth : k - i ≡ 0 = omega arith in
          (
            omega arith,
            omega arith,
            name,
            w,
            ap (get_elem? (name ∷ names)) zeroth,
            a ∙ ground arith,
          )
      go (err x, v) a e next =
          let (p, q, n, u, s, t) = next x v (ground arith) in
          let later : k - i ≡ suc (k - (i + 1)) = omega arith in
          (omega arith, omega arith, n, u, ap (get_elem? (name ∷ names)) later ∙ s, t)
      go (panic, v) a e next = absurd (ground arith)

  -- Where the alternatives give a handle, its index is in range and it is the handle of the name at
  -- that index, from the last call that was made.
  pub alternatives_lem :
      (names : List (List ℕ)) (w w' : W) (h k : ℕ)
      → get_service_handle_alternatives m debug srv names w ≡ (ok (h, k), w')
      → (k < length names)
        × (name : List ℕ) × (v : W) × (get_elem? names k ≡ some name)
        × (get_service_handle m debug srv name v ≡ (ok h, w'))
  unfolding get_service_handle_alternatives
  alternatives_lem names w w' h k e =
      let (p, q, n, u, s, t) = try_names-Taken names 0 _ w w' {h = h} {k = k} e in
      let whole : k ≡ k - 0 = omega arith in (omega arith, n, u, ap (get_elem? names) whole ∙ s, t)
