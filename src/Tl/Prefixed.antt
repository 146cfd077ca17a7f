-- ===== src/Tl/Prefixed.antt =====
-- The length-prefixed encoding of byte strings, read back.
use cpp_gram.Common.{
  ℕ, zero, suc, ◌+◌, ◌%◌, ◌^◌, ◌≤◌, ◌<◌, ◌≡◌, refl, sym, ap, List, [], ◌∷◌, ◌++◌, subst, append-nil,
  append_assoc, length, drop, replicate, get_or, length-replicate, leb, if◌then◌else◌, le→leb,
  leb→le, Bool-cases, inl, inr, arith, ok,
}
use cpp_gram.Common.Bytes.{byte_at, le24, le24-byte_at}
use cpp_gram.Tl.{
  TlWriter, append, write_bytes, Read, advance, read_raw, ◌>>=◌, pure, read_bytes, read_string,
  read_contents, read_long, next_byte, require, skip, read_prefixed, padding,
}
use cpp_gram.Tl.Reads.{Reads, room, bind-Reads, pure-Reads, read_raw-Reads}

require-Reads :
    (n : ℕ) (m : Read (List ℕ)) (xs a : List ℕ)
    → n ≤ length xs
    → Reads m xs a
    → Reads (require n >>= λ _. m) xs a
unfolding require
require-Reads n m xs a h hm r rest rem =
    rw (le→leb (r.offset + n) (length r.bytes) (omega (arith, room r xs rest rem))) (hm r rest rem)

get_or_of_drop :
    (n : ℕ) (l : List ℕ) (b : ℕ) (rest : List ℕ) → drop n l ≡ b ∷ rest → get_or l n 0 ≡ b
get_or_of_drop zero [] b rest e = cc
get_or_of_drop zero (x ∷ l) b rest e = cc
get_or_of_drop (suc n) [] b rest e = cc
get_or_of_drop (suc n) (x ∷ l) b rest e = get_or_of_drop n l b rest e

next_byte-Reads : (b : ℕ) → Reads next_byte (b ∷ []) b
unfolding next_byte
next_byte-Reads b r rest h =
    ap (λ (x : ℕ). (ok x, advance r 1)) (get_or_of_drop r.offset r.bytes b rest h.left)

skip-Reads : (n : ℕ) → Reads (skip n) (replicate n 0) tt
unfolding skip
skip-Reads n r rest h = ground (arith, length-replicate n (zero))

read_contents-Reads :
    (header_len : ℕ) (bs : List ℕ)
    → Reads
        (read_contents header_len (length bs))
        (bs ++ replicate (padding (header_len + length bs)) 0)
        bs
unfolding read_contents
read_contents-Reads header_len bs =
    bind-Reads (read_raw (length bs)) _ bs (replicate pad 0) bs bs (read_raw-Reads bs) (
      require-Reads pad (skip pad >>= λ _. pure bs) (replicate pad 0) bs
        (omega (arith, length-replicate pad (zero)))
        (subst (λ xs. Reads (skip pad >>= λ _. pure bs) xs bs) (append-nil (replicate pad 0))
          (bind-Reads (skip pad) (λ _. pure bs) (replicate pad 0) [] tt bs (skip-Reads pad)
            (pure-Reads bs))))
  where
    pad : ℕ
    pad = padding (header_len + length bs)

-- What follows the first byte of a long encoding.
abbrev pub long_tail : List ℕ → List ℕ
long_tail bs =
    byte_at (length bs) 0
    ∷ byte_at (length bs) 1
    ∷ byte_at (length bs) 2
    ∷ (bs ++ replicate (padding (4 + length bs)) 0)

-- The bytes that `write_bytes` appends.
abbrev pub encoded : List ℕ → List ℕ
encoded bs =
    if leb (length bs) 253
    then (length bs ∷ (bs ++ replicate (padding (1 + length bs)) 0))
    else (0xfe ∷ long_tail bs)

pub write_bytes-encoded : (w : TlWriter) (bs : List ℕ) → write_bytes w bs ≡ append w (encoded bs)
unfolding write_bytes
write_bytes-encoded w bs = elim (Bool-cases (leb (length bs) 253)) [
  | inl short ↦ rw short (simp (append_assoc, mod_small (leb→le _ _ short)))
  | inr long ↦ rw long (simp append_assoc)
]
  where
    mod_small : length bs ≤ 253 → length bs % 256 ≡ length bs
    mod_small h = omega arith

pub read_prefixed_short : (n : ℕ) → n ≤ 253 → read_prefixed n ≡ read_contents 1 n
unfolding read_prefixed
read_prefixed_short n h = rw (le→leb _ _ h)

pub read_prefixed_long : read_prefixed 0xfe ≡ read_long
unfolding read_prefixed
read_prefixed_long = refl

read_prefixed_short-Reads :
    (bs : List ℕ)
    → length bs ≤ 253
    → Reads (read_prefixed (length bs)) (bs ++ replicate (padding (1 + length bs)) 0) bs
read_prefixed_short-Reads bs h =
    subst (λ m. Reads m (bs ++ replicate (padding (1 + length bs)) 0) bs)
      (sym (read_prefixed_short (length bs) h)) (read_contents-Reads 1 bs)

-- The three bytes of a long length.
read_long-Reads : (bs : List ℕ) → length bs < 2 ^ 24 → Reads read_long (long_tail bs) bs
unfolding read_long
read_long-Reads bs h = require-Reads 3 _ (b0 ∷ b1 ∷ b2 ∷ tail) bs (omega arith) (
    bind-Reads next_byte (λ x. next_byte >>= λ y. next_byte >>= λ z. read_contents 4 (le24 x y z))
      (b0 ∷ []) (b1 ∷ b2 ∷ tail) b0 bs (next_byte-Reads b0)
      (bind-Reads next_byte (λ y. next_byte >>= λ z. read_contents 4 (le24 b0 y z)) (b1 ∷ [])
        (b2 ∷ tail) b1 bs (next_byte-Reads b1)
        (bind-Reads next_byte (λ z. read_contents 4 (le24 b0 b1 z)) (b2 ∷ []) tail b2 bs
          (next_byte-Reads b2)
          (subst (λ n. Reads (read_contents 4 n) tail bs) (sym (le24-byte_at (length bs) h))
            (read_contents-Reads 4 bs)))))
  where
    b0 : ℕ
    b0 = byte_at (length bs) 0

    b1 : ℕ
    b1 = byte_at (length bs) 1

    b2 : ℕ
    b2 = byte_at (length bs) 2

    tail : List ℕ
    tail = bs ++ replicate (padding (4 + length bs)) 0

pub read_bytes-Reads : (bs : List ℕ) → length bs < 2 ^ 24 → Reads read_bytes (encoded bs) bs
unfolding read_bytes
read_bytes-Reads bs h = elim (Bool-cases (leb (length bs) 253)) [
  | inl short ↦ rw short (
      require-Reads 1 _ (length bs ∷ (bs ++ replicate (padding (1 + length bs)) 0)) bs (omega arith)
        (bind-Reads next_byte read_prefixed (length bs ∷ []) _ (length bs) bs
          (next_byte-Reads (length bs)) (read_prefixed_short-Reads bs (leb→le _ _ short))))
  | inr long ↦ rw long (
      require-Reads 1 _ (0xfe ∷ long_tail bs) bs (omega arith) (
        bind-Reads next_byte read_prefixed (0xfe ∷ []) (long_tail bs) 0xfe bs (next_byte-Reads 0xfe)
          (subst (λ m. Reads m (long_tail bs) bs) (sym read_prefixed_long) (read_long-Reads bs h))))
]

pub read_string-Reads : (bs : List ℕ) → length bs < 2 ^ 24 → Reads read_string (encoded bs) bs
unfolding read_string
read_string-Reads bs h = read_bytes-Reads bs h
