-- ===== src/Debug/Laws.antt =====
-- The writer against the text that it is given.
use ctru_rt.Base.{
  ℕ, zero, suc, ◌+◌, ◌-◌, ◌≤◌, min, ◌≡◌, refl, sym, ap, ◌∙◌, arith, List, [], ◌∷◌, ◌++◌,
  append_assoc, append-nil, length, length-append, take, drop, length-replicate, length-take,
  take-min, length-drop, take_all, take-append_left,
}
use ctru_rt.Debug.{FixedSizeBufferWriter, new, remaining, occupied, write_str, write_pieces, concat}

pub record IsValid (n : ℕ) (w : FixedSizeBufferWriter) : Type 0 where
  pub size : length w.buffer ≡ n
  pub inside : w.pos ≤ n

take-append :
    (n : ℕ) (xs ys : List ℕ) → length xs ≤ n → take n (xs ++ ys) ≡ xs ++ take (n - length xs) ys
take-append n [] ys h = ap (λ k. take k ys) (omega arith)
take-append zero (x ∷ xs) ys h = absurd (omega (arith, h))
take-append (suc n) (x ∷ xs) ys h =
    ap (λ l. x ∷ l) (take-append n xs ys (omega (arith, h)))
    ∙ ap (λ k. x ∷ (xs ++ take k ys)) (omega arith)

take-take-append : (n : ℕ) (xs ys : List ℕ) → take n (take n xs ++ ys) ≡ take n (xs ++ ys)
take-take-append zero xs ys = refl
take-take-append (suc n) [] ys = refl
take-take-append (suc n) (x ∷ xs) ys = ap (λ l. x ∷ l) (take-take-append n xs ys)

length-occupied : (n : ℕ) (w : FixedSizeBufferWriter) → IsValid n w → length (occupied w) ≡ w.pos
unfolding occupied
length-occupied n w v = length-take w.pos w.buffer ∙ omega (arith, v.size, v.inside)

take_both :
    (k : ℕ) (xs ys zs : List ℕ) → k ≡ length xs + length ys → take k (xs ++ ys ++ zs) ≡ xs ++ ys
take_both k xs ys zs e =
    take-append_left k (xs ++ ys) zs (omega (arith, e, length-append xs ys))
    ∙ take_all k (xs ++ ys) (omega (arith, e, length-append xs ys))

write_str-occupied :
    (n : ℕ) (bytes : List ℕ) (w : FixedSizeBufferWriter)
    → IsValid n w
    → occupied (write_str bytes w) ≡ take n (occupied w ++ bytes)
unfolding occupied write_str remaining
write_str-occupied n bytes w v =
    let before = take w.pos w.buffer in
    let k = min (length bytes) (length w.buffer - w.pos) in
    let l = length-take w.pos w.buffer in
    take_both (min (w.pos + length (take k bytes)) (length w.buffer)) before (take k bytes)
      (drop (w.pos + length (take k bytes)) w.buffer)
      (omega (arith, l, length-take k bytes, v.size, v.inside))
    ∙ ap (λ printed. before ++ printed) (take-min (length w.buffer - w.pos) bytes)
    ∙ ap (λ i. before ++ take i bytes) (omega (arith, l, v.size, v.inside))
    ∙ sym (take-append n before bytes (omega (arith, l, v.inside)))

write_str-IsValid :
    (n : ℕ) (bytes : List ℕ) (w : FixedSizeBufferWriter)
    → IsValid n w
    → IsValid n (write_str bytes w)
unfolding write_str remaining
write_str-IsValid n bytes w v = record {
  size =
      let k = min (length bytes) (length w.buffer - w.pos) in
      omega (
        arith,
        v.size,
        v.inside,
        length-take w.pos w.buffer,
        length-take k bytes,
        length-append (take w.pos w.buffer ++ take k bytes)
            (drop (w.pos + length (take k bytes)) w.buffer),
        length-append (take w.pos w.buffer) (take k bytes),
        length-drop (w.pos + length (take k bytes)) w.buffer,
      );
  inside = omega (arith, v.size);
}

write_pieces-occupied :
    (n : ℕ) (pieces : List (List ℕ)) (w : FixedSizeBufferWriter)
    → IsValid n w
    → occupied (write_pieces pieces w) ≡ take n (occupied w ++ concat pieces)
unfolding write_pieces
write_pieces-occupied n [] w v = sym (
    ap (take n) (append-nil (occupied w))
    ∙ take_all n (occupied w) (omega (arith, v.inside, length-occupied n w v)))
write_pieces-occupied n (piece ∷ pieces) w v =
    write_pieces-occupied n pieces (write_str piece w) (write_str-IsValid n piece w v)
    ∙ ap (λ l. take n (l ++ concat pieces)) (write_str-occupied n piece w v)
    ∙ take-take-append n (occupied w ++ piece) (concat pieces)
    ∙ ap (take n) (append_assoc (occupied w) piece (concat pieces))

-- What a writer of `n` bytes holds after the pieces of a text is the text's first `n` bytes.
pub write_pieces_lem :
    (n : ℕ) (pieces : List (List ℕ))
    → occupied (write_pieces pieces (new n)) ≡ take n (concat pieces)
unfolding occupied new
write_pieces_lem n pieces =
    write_pieces-occupied n pieces (new n)
      (record { size = length-replicate n 0; inside = omega arith })
