-- ===== src/Tl/Bounds.antt =====
-- The reader on any input, well formed or hostile: it stays within its bytes, and what it reads
-- successfully ends on a word boundary.
use cpp_gram.Common.{
  ℕ, ◌+◌, ◌%◌, ◌^◌, ◌≤◌, ◌<◌, ◌≡◌, refl, ap, ◌∙◌, List, [], ◌∷◌, length, arith, Outcome, ok, throws,
  resume, All, length-append, length-replicate, Bool-cases, inl, inr, leb, leb→le, le→leb, lt→leb,
  ◌==◌, get_or, replicate,
}
use cpp_gram.Common.Bytes.{le24, to_le, length-to_le}
use cpp_gram.Tl.{
  TlWriter, TlReader, TlError, Read, advance, ◌>>=◌, pure, read_raw, read_uint32, read_int32,
  read_uint64, read_int64, read_int128, read_int256, read_double, read_bytes, read_string,
  read_vector_header, read_contents, read_long, read_prefixed, check_vector, padding, tl_vector,
  underflow,
}
use cpp_gram.Tl.Prefixed.{encoded}
use cpp_gram.Tl.Item.{
  Item, Kind, Fits, read_item, read_items, write_items, items_bytes, item_bytes, write_items-append,
}

-- From `r` to the reader in `o`: the bytes are the same, the offset does not go back or leave them,
-- and if the read succeeded it has moved by whole words.
abbrev pub Sound : {A : Type 0} → TlReader → Outcome TlError A × TlReader → Type 0
Sound r (ok a, s) =
    (s.bytes ≡ r.bytes)
    × (r.offset ≤ s.offset)
    × (s.offset ≤ length r.bytes)
    × (s.offset % 4 ≡ r.offset % 4)
Sound r (throws e, s) = (s.bytes ≡ r.bytes) × (r.offset ≤ s.offset) × (s.offset ≤ length r.bytes)

abbrev IsSound : {A : Type 0} → Read A → Type 0
IsSound m = (r : TlReader) → r.offset ≤ length r.bytes → Sound r (m r)

-- Soundness from a later position is soundness from an earlier one, whole words before it.
Sound-trans :
    {A : Type 0} (r s : TlReader) (o : Outcome TlError A × TlReader)
    → s.bytes ≡ r.bytes
    → r.offset ≤ s.offset
    → s.offset % 4 ≡ r.offset % 4
    → Sound s o
    → Sound r o
Sound-trans r s (ok b, t) same grows aligned g =
    (g.0 ∙ same, omega arith, omega (arith, ap (λ (l : List ℕ). length l) same), omega arith)
Sound-trans r s (throws e, t) same grows aligned g =
    (g.0 ∙ same, omega arith, omega (arith, ap (λ (l : List ℕ). length l) same))

resume-Sound :
    {A B : Type 0} (r : TlReader) (o : Outcome TlError A × TlReader) (f : A → Read B)
    → Sound r o
    → ((a : A) → IsSound (f a))
    → Sound r (resume o f)
resume-Sound r (ok a, s) f h k =
    Sound-trans r s (f a s) h.0 h.1 h.3 (k a s (omega (arith, ap (λ (l : List ℕ). length l) h.0)))
resume-Sound r (throws e, s) f h k = h

bind-IsSound :
    {A B : Type 0} (m : Read A) (f : A → Read B)
    → IsSound m
    → ((a : A) → IsSound (f a))
    → IsSound (m >>= f)
bind-IsSound m f h k r within = resume-Sound r (m r) f (h r within) k

pure-IsSound : {A : Type 0} (a : A) → IsSound (pure a)
pure-IsSound a r within = (refl, omega arith, omega arith, refl)

wrap-IsSound : {A B : Type 0} (m : Read A) (f : A → B) → IsSound m → IsSound (m >>= λ v. pure (f v))
wrap-IsSound m f h = bind-IsSound m (λ v. pure (f v)) h (λ a. pure-IsSound (f a))

read_raw-IsSound : (n : ℕ) → n % 4 ≡ 0 → IsSound (read_raw n)
unfolding read_raw
read_raw-IsSound n h r within = ground arith

read_uint32-IsSound : IsSound read_uint32
unfolding read_uint32
read_uint32-IsSound = wrap-IsSound (read_raw 4) _ (read_raw-IsSound 4 refl)

read_uint64-IsSound : IsSound read_uint64
unfolding read_uint64
read_uint64-IsSound = wrap-IsSound (read_raw 8) _ (read_raw-IsSound 8 refl)

check_vector-IsSound : (ctor : ℕ) → IsSound (check_vector ctor)
unfolding check_vector
check_vector-IsSound ctor r within = ground (arith, read_uint32-IsSound r within)

-- The contents and the padding fill up what the header has begun.
read_contents-Sound :
    (header_len len : ℕ) (r : TlReader)
    → r.offset + header_len ≤ length r.bytes
    → Sound r (read_contents header_len len (advance r header_len))
unfolding read_contents read_raw
read_contents-Sound header_len len r h = ground arith

-- Behind the first byte of a long encoding: three more bytes are the length.
abbrev pub long_length : TlReader → ℕ
long_length r =
    le24 (get_or r.bytes (r.offset + 1) 0) (get_or r.bytes (r.offset + 1 + 1) 0)
      (get_or r.bytes (r.offset + 1 + 1 + 1) 0)

pub read_long_ok :
    (r : TlReader)
    → r.offset + 4 ≤ length r.bytes
    → read_long (advance r 1) ≡ read_contents 4 (long_length r) (advance r 4)
unfolding read_long
read_long_ok r h =
    rw (le→leb (r.offset + 1 + 3) (length r.bytes) (omega arith))
      (ap (λ (n : ℕ). read_contents 4 (long_length r) (record r { offset = n })) four)
  where
    four : r.offset + 1 + 1 + 1 + 1 ≡ r.offset + 4
    four = omega arith

pub read_long_short :
    (r : TlReader)
    → length r.bytes < r.offset + 4
    → read_long (advance r 1) ≡ (throws underflow, advance r 1)
unfolding read_long
read_long_short r h = rw (lt→leb (r.offset + 1 + 3) (length r.bytes) (omega arith))

pub read_bytes_empty :
    (r : TlReader) → length r.bytes < r.offset + 1 → read_bytes r ≡ (throws underflow, r)
unfolding read_bytes
read_bytes_empty r h = rw (lt→leb _ _ h)

pub read_bytes_prefixed :
    (r : TlReader)
    → r.offset + 1 ≤ length r.bytes
    → read_bytes r ≡ read_prefixed (get_or r.bytes r.offset 0) (advance r 1)
unfolding read_bytes
read_bytes_prefixed r h = rw (le→leb _ _ h)

read_long-Sound : (r : TlReader) → r.offset + 1 ≤ length r.bytes → Sound r (read_long (advance r 1))
read_long-Sound r h = elim (Bool-cases (leb (r.offset + 4) (length r.bytes))) [
  | inl long ↦
      let room = leb→le _ _ long in
      rw (read_long_ok r room) (read_contents-Sound 4 (long_length r) r room)
  | inr short ↦ rw (read_long_short r (ground arith)) (refl, omega arith, h)
]

read_prefixed-Sound :
    (b : ℕ) (r : TlReader) → r.offset + 1 ≤ length r.bytes → Sound r (read_prefixed b (advance r 1))
unfolding read_prefixed
read_prefixed-Sound b r h = elim (Bool-cases (leb b 253)) [
  | inl short ↦ rw short (read_contents-Sound 1 b r h)
  | inr over ↦ rw over (elim (Bool-cases (b == 0xfe)) [
    | inl long ↦ rw long (read_long-Sound r h)
    | inr bad ↦ rw bad (refl, omega arith, h)
  ])
]

read_bytes-IsSound : IsSound read_bytes
read_bytes-IsSound r within = elim (Bool-cases (leb (r.offset + 1) (length r.bytes))) [
  | inl some_left ↦
      let room = leb→le _ _ some_left in
      rw (read_bytes_prefixed r room) (read_prefixed-Sound _ r room)
  | inr none_left ↦ rw (read_bytes_empty r (ground arith)) (refl, omega arith, within)
]

read_item-IsSound : (k : Kind) → IsSound (read_item k)
unfolding read_item read_int32 read_int64 read_int128 read_int256 read_double read_string
    read_vector_header
read_item-IsSound Kind.int32 = wrap-IsSound read_uint32 _ read_uint32-IsSound
read_item-IsSound Kind.uint32 = wrap-IsSound read_uint32 _ read_uint32-IsSound
read_item-IsSound Kind.int64 = wrap-IsSound read_uint64 _ read_uint64-IsSound
read_item-IsSound Kind.uint64 = wrap-IsSound read_uint64 _ read_uint64-IsSound
read_item-IsSound Kind.double =
    wrap-IsSound read_double _ (wrap-IsSound (read_raw 8) _ (read_raw-IsSound 8 refl))
read_item-IsSound Kind.vector_header =
    wrap-IsSound read_vector_header _
      (bind-IsSound read_uint32 check_vector read_uint32-IsSound check_vector-IsSound)
read_item-IsSound Kind.int128 = wrap-IsSound (read_raw 16) _ (read_raw-IsSound 16 refl)
read_item-IsSound Kind.int256 = wrap-IsSound (read_raw 32) _ (read_raw-IsSound 32 refl)
read_item-IsSound Kind.bytes = wrap-IsSound read_bytes _ read_bytes-IsSound
read_item-IsSound Kind.string = wrap-IsSound read_bytes _ read_bytes-IsSound

-- Whatever the input and the types read from it: the reader keeps the bytes, never moves back or
-- past their end, also when a read throws, and after success it has moved by a multiple of four.
pub read_items-IsSound :
    (ks : List Kind) (r : TlReader) → r.offset ≤ length r.bytes → Sound r (read_items ks r)
unfolding read_items
read_items-IsSound [] r within = pure-IsSound {A = List Item} [] r within
read_items-IsSound (k ∷ ks) r within =
    bind-IsSound (read_item k) (λ i. read_items ks >>= λ is. pure (i ∷ is)) (read_item-IsSound k)
      (λ i. wrap-IsSound (read_items ks) (λ is. i ∷ is) (read_items-IsSound ks)) r within

length-encoded : (bs : List ℕ) → length (encoded bs) % 4 ≡ 0
length-encoded bs = elim (Bool-cases (leb (length bs) 253)) [
  | inl short ↦ rw short (
      omega (
        arith,
        length-append bs (replicate (padding (1 + length bs)) 0),
        length-replicate {A = ℕ} (padding (1 + length bs)) 0,
      ))
  | inr long ↦ rw long (
      omega (
        arith,
        length-append bs (replicate (padding (4 + length bs)) 0),
        length-replicate {A = ℕ} (padding (4 + length bs)) 0,
      ))
]

length-item_bytes : (i : Item) → Fits i → length (item_bytes i) % 4 ≡ 0
length-item_bytes (Item.int32 v) h = omega (arith, length-to_le 4 v)
length-item_bytes (Item.uint32 v) h = omega (arith, length-to_le 4 v)
length-item_bytes (Item.int64 v) h = omega (arith, length-to_le 8 v)
length-item_bytes (Item.uint64 v) h = omega (arith, length-to_le 8 v)
length-item_bytes (Item.double v) h = omega (arith, length-to_le 8 v)
length-item_bytes (Item.vector_header v) h = omega (
  arith,
  length-append (to_le 4 tl_vector) (to_le 4 (v % 2 ^ 32)),
  length-to_le 4 tl_vector,
  length-to_le 4 (v % 2 ^ 32),
)
length-item_bytes (Item.int128 v) h = omega (arith, h)
length-item_bytes (Item.int256 v) h = omega (arith, h)
length-item_bytes (Item.bytes v) h = length-encoded v
length-item_bytes (Item.string v) h = length-encoded v

length-items_bytes : (is : List Item) → All Fits is → length (items_bytes is) % 4 ≡ 0
length-items_bytes [] h = refl
length-items_bytes (i ∷ is) h = omega (
  arith,
  length-append (item_bytes i) (items_bytes is),
  length-item_bytes i h.0,
  length-items_bytes is h.1,
)

-- Values that fit their types take a whole number of 32-bit words, whatever they are appended to.
pub write_items_aligned :
    (w : TlWriter) (is : List Item)
    → All Fits is
    → length (write_items w is).buffer % 4 ≡ length w.buffer % 4
write_items_aligned w is h =
    rw (write_items-append w is)
      (omega (arith, length-append w.buffer (items_bytes is), length-items_bytes is h))
