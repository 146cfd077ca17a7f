-- ===== src/Tl/Truncation.antt =====
-- Input that ends inside a byte string.
use cpp_gram.Common.{
  ℕ, ◌+◌, ◌^◌, ◌≤◌, ◌<◌, ◌≡◌, sym, ap, ◌∙◌, List, [], ◌∷◌, ◌++◌, length, get_or, get_or-append,
  arith, throws, length-append, length-replicate, Bool-cases, inl, inr, leb, leb→le, le→leb, lt→leb,
  replicate,
}
use cpp_gram.Common.Bytes.{le24-byte_at}
use cpp_gram.Tl.{
  TlReader, new_reader, advance, read_raw, read_bytes, read_contents, read_prefixed, underflow,
  padding,
}
use cpp_gram.Tl.Prefixed.{encoded, read_prefixed_short, read_prefixed_long}
use cpp_gram.Tl.Bounds.{
  long_length, read_long_ok, read_long_short, read_bytes_empty, read_bytes_prefixed,
}

-- The contents or their padding do not fit what is left.
read_contents_underflow :
    (header_len len : ℕ) (r : TlReader)
    → length r.bytes < r.offset + len + padding (header_len + len)
    → (read_contents header_len len r).0 ≡ throws underflow
unfolding read_contents read_raw
read_contents_underflow header_len len r h = ground arith

length-encoded_short :
    (bs : List ℕ) → length bs ≤ 253 → length (encoded bs) ≡ 1 + length bs + padding (1 + length bs)
length-encoded_short bs h = rw (le→leb _ _ h) (
    omega (
      arith,
      length-append bs (replicate (padding (1 + length bs)) 0),
      length-replicate {A = ℕ} (padding (1 + length bs)) 0,
    ))

length-encoded_long :
    (bs : List ℕ) → 253 < length bs → length (encoded bs) ≡ 4 + length bs + padding (4 + length bs)
length-encoded_long bs h = rw (lt→leb _ _ h) (
    omega (
      arith,
      length-append bs (replicate (padding (4 + length bs)) 0),
      length-replicate {A = ℕ} (padding (4 + length bs)) 0,
    ))

module _ (bs front : List ℕ) (x : ℕ) (back : List ℕ) (cut : encoded bs ≡ front ++ (x ∷ back)) where
  whole_length : length front < length (encoded bs)
  whole_length = omega (arith, ap (λ (l : List ℕ). length l) cut, length-append front (x ∷ back))

  same_byte : (i : ℕ) → i < length front → get_or front i 0 ≡ get_or (encoded bs) i 0
  same_byte i h =
      sym (get_or-append front (x ∷ back) i 0 h) ∙ ap (λ (l : List ℕ). get_or l i 0) (sym cut)

  first_byte :
      1 ≤ length front
      → read_bytes (new_reader front)
        ≡ read_prefixed (get_or (encoded bs) 0 0) (advance (new_reader front) 1)
  first_byte one = rw (← same_byte 0 one) (read_bytes_prefixed (new_reader front) one)

  short_case :
      length bs ≤ 253 → 1 ≤ length front → (read_bytes (new_reader front)).0 ≡ throws underflow
  short_case short one =
      rw (first_byte one, le→leb _ _ short, read_prefixed_short (length bs) short)
        (read_contents_underflow 1 (length bs) (advance (new_reader front) 1)
          (omega (arith, whole_length, length-encoded_short bs short)))

  length_bytes :
      253 < length bs
      → length bs < 2 ^ 24
      → 4 ≤ length front
      → long_length (new_reader front) ≡ length bs
  length_bytes long fits four =
      rw
        (
          same_byte (0 + 1) (omega arith),
          same_byte (0 + 1 + 1) (omega arith),
          same_byte (0 + 1 + 1 + 1) (omega arith),
          lt→leb _ _ long,
        )
        (le24-byte_at (length bs) fits)

  long_case :
      253 < length bs
      → length bs < 2 ^ 24
      → 1 ≤ length front
      → (read_bytes (new_reader front)).0 ≡ throws underflow
  long_case long fits one =
      rw (first_byte one, lt→leb _ _ long, read_prefixed_long)
        (elim (Bool-cases (leb 4 (length front))) [
          | inl four ↦
              rw
                (
                  read_long_ok (new_reader front) (leb→le _ _ four),
                  length_bytes long fits (leb→le _ _ four),
                )
                (read_contents_underflow 4 (length bs) (advance (new_reader front) 4)
                  (omega (arith, whole_length, length-encoded_long bs long)))
          | inr cut_length ↦ rw (read_long_short (new_reader front) (ground arith))
        ])

-- Every proper prefix of the encoding of fewer than 2 ^ 24 bytes, so many as the three bytes of a long
-- length can count, is refused as an underflow: the length, the contents or the padding is cut.
pub read_bytes_truncated :
    (bs front : List ℕ) (x : ℕ) (back : List ℕ)
    → length bs < 2 ^ 24
    → encoded bs ≡ front ++ (x ∷ back)
    → (read_bytes (new_reader front)).0 ≡ throws underflow
read_bytes_truncated bs [] x back fits cut =
    ap (λ p. p.0) (read_bytes_empty (new_reader []) (omega arith))
read_bytes_truncated bs (b ∷ front) x back fits cut = elim (Bool-cases (leb (length bs) 253)) [
  | inl short ↦ short_case bs (b ∷ front) x back cut (leb→le _ _ short) (omega arith)
  | inr long ↦ long_case bs (b ∷ front) x back cut (ground arith) fits (omega arith)
]
