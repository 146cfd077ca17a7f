-- ===== src/Tl/Reads.antt =====
-- Reading from what is left of the input: how each operation of the reader moves over the bytes
-- that the writer's operation of the same type appends.
use cpp_gram.Common.{
  ℕ, ◌+◌, ◌^◌, ◌≤◌, ◌<◌, ◌≡◌, refl, sym, ap, ◌∙◌, List, [], ◌++◌, subst, append-nil, append_assoc,
  length, drop, length-append, length-drop, drop-drop, drop-append, take-append, le→leb, arith, ok,
}
use cpp_gram.Common.Bytes.{to_le, of_le, length-to_le, of_le-to_le, IsU32, IsU64}
use cpp_gram.Tl.{
  TlReader, Read, advance, read_raw, ◌>>=◌, pure, read_uint32, read_int32, read_uint64, read_int64,
  read_int128, read_int256, read_double, read_vector_header, check_vector, tl_vector,
}

-- The reader is within its input, and `bs` is what is left of it.
pub record Remaining (r : TlReader) (bs : List ℕ) : Type 0 where
  pub within : r.offset ≤ length r.bytes
  pub left : drop r.offset r.bytes ≡ bs

pub length-Remaining :
    (r : TlReader) (bs : List ℕ) → Remaining r bs → length r.bytes ≡ r.offset + length bs
length-Remaining r bs h =
    omega (arith, length-drop r.offset r.bytes, ap (λ (l : List ℕ). length l) h.left, h.within)

pub advance-Remaining :
    (r : TlReader) (xs ys : List ℕ) → Remaining r (xs ++ ys) → Remaining (advance r (length xs)) ys
advance-Remaining r xs ys h = record {
  within = omega (arith, length-Remaining r (xs ++ ys) h, length-append xs ys);
  left =
      sym (drop-drop r.offset (length xs) r.bytes)
      ∙ ap (drop (length xs)) h.left
      ∙ drop-append (length xs) xs ys refl;
}

-- `m` takes exactly `bs` off the front of any input, and returns `a`.
abbrev pub Reads : {A : Type 0} → Read A → List ℕ → A → Type 0
Reads m bs a =
    (r : TlReader) (rest : List ℕ) → Remaining r (bs ++ rest) → m r ≡ (ok a, advance r (length bs))

pub pure-Reads : {A : Type 0} (a : A) → Reads (pure a) [] a
pure-Reads a r rest h = ground arith

pub bind-Reads :
    {A B : Type 0} (m : Read A) (f : A → Read B) (xs ys : List ℕ) (a : A) (b : B)
    → Reads m xs a
    → Reads (f a) ys b
    → Reads (m >>= f) (xs ++ ys) b
bind-Reads m f xs ys a b hm hf r rest h = rw (hm r (ys ++ rest) regrouped) (
    hf (advance r (length xs)) rest (advance-Remaining r xs (ys ++ rest) regrouped)
    ∙ ground (arith, length-append xs ys))
  where
    regrouped : Remaining r (xs ++ (ys ++ rest))
    regrouped = record { within = h.within; left = h.left ∙ append_assoc xs ys rest }

-- There are at least as many bytes left as are at the front.
pub room :
    (r : TlReader) (xs ys : List ℕ) → Remaining r (xs ++ ys) → r.offset + length xs ≤ length r.bytes
room r xs ys h = omega (arith, length-Remaining r (xs ++ ys) h, length-append xs ys)

pub read_raw-Reads : (bs : List ℕ) → Reads (read_raw (length bs)) bs bs
unfolding read_raw
read_raw-Reads bs r rest h =
    rw (le→leb _ _ (room r bs rest h)) (rw h.left (rw (take-append (length bs) bs rest refl)))

read_raw_exact : (n : ℕ) (bs : List ℕ) → length bs ≡ n → Reads (read_raw n) bs bs
read_raw_exact n bs e = subst (λ k. Reads (read_raw k) bs bs) e (read_raw-Reads bs)

-- The words.
read_le : (n v : ℕ) → v < 256 ^ n → Reads (read_raw n >>= λ val. pure (of_le val)) (to_le n v) v
read_le n v h =
    subst (λ bs. Reads (read_raw n >>= λ val. pure (of_le val)) bs v) (append-nil (to_le n v))
      (bind-Reads (read_raw n) (λ val. pure (of_le val)) (to_le n v) [] (to_le n v) v
        (read_raw_exact n (to_le n v) (length-to_le n v))
        (subst (λ x. Reads (pure (of_le (to_le n v))) [] x) (of_le-to_le n v h)
          (pure-Reads (of_le (to_le n v)))))

pub read_uint32-Reads : (v : ℕ) → IsU32 v → Reads read_uint32 (to_le 4 v) v
unfolding read_uint32
read_uint32-Reads v h = read_le 4 v (omega arith)

pub read_int32-Reads : (v : ℕ) → IsU32 v → Reads read_int32 (to_le 4 v) v
unfolding read_int32
read_int32-Reads v h = read_uint32-Reads v h

pub read_uint64-Reads : (v : ℕ) → IsU64 v → Reads read_uint64 (to_le 8 v) v
unfolding read_uint64
read_uint64-Reads v h = read_le 8 v (omega arith)

pub read_int64-Reads : (v : ℕ) → IsU64 v → Reads read_int64 (to_le 8 v) v
unfolding read_int64
read_int64-Reads v h = read_uint64-Reads v h

pub read_double-Reads : (v : ℕ) → IsU64 v → Reads read_double (to_le 8 v) v
unfolding read_double
read_double-Reads v h = read_le 8 v (omega arith)

pub read_int128-Reads : (bs : List ℕ) → length bs ≡ 16 → Reads read_int128 bs bs
unfolding read_int128
read_int128-Reads bs e = read_raw_exact 16 bs e

pub read_int256-Reads : (bs : List ℕ) → length bs ≡ 32 → Reads read_int256 bs bs
unfolding read_int256
read_int256-Reads bs e = read_raw_exact 32 bs e

pub read_vector_header-Reads :
    (count : ℕ) → IsU32 count → Reads read_vector_header (to_le 4 tl_vector ++ to_le 4 count) count
unfolding read_vector_header check_vector
read_vector_header-Reads count h =
    bind-Reads read_uint32 check_vector (to_le 4 tl_vector) (to_le 4 count) tl_vector count
      (read_uint32-Reads tl_vector (omega arith)) (read_uint32-Reads count h)
