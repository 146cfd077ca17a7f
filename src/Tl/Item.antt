-- ===== src/Tl/Item.antt =====
-- A stream of TL values of any types: what a sequence of `write_*` calls appends is read back by
-- the `read_*` calls of the same types, in the same order.
use cpp_gram.Common.{
  ℕ, ◌^◌, ◌%◌, ◌<◌, ◌≡◌, refl, sym, ◌∙◌, List, [], ◌∷◌, ◌++◌, subst, append-nil, append_assoc, map,
  length, arith, All,
}
use cpp_gram.Common.Bytes.{to_le, IsU32, IsU64}
use cpp_gram.Tl.{
  TlWriter, append, write_int32, write_uint32, write_int64, write_uint64, write_int128,
  write_int256, write_double, write_bytes, write_string, write_vector_header, Read, ◌>>=◌, pure,
  read_uint32, read_int32, read_uint64, read_int64, read_int128, read_int256, read_double,
  read_bytes, read_string, read_vector_header, tl_vector,
}
use cpp_gram.Tl.Reads.{
  Reads, bind-Reads, pure-Reads, read_int32-Reads, read_uint32-Reads, read_int64-Reads,
  read_uint64-Reads, read_int128-Reads, read_int256-Reads, read_double-Reads,
  read_vector_header-Reads,
}
use cpp_gram.Tl.Prefixed.{encoded, write_bytes-encoded, read_bytes-Reads, read_string-Reads}

-- One constructor for each pair of operations; a signed word or a double is its bit pattern.
pub data Item : Type 0 where
  int32 uint32 int64 uint64 double vector_header : ℕ → Item
  int128 int256 bytes string : List ℕ → Item

pub data Kind : Type 0 where
  int32 uint32 int64 uint64 double vector_header int128 int256 bytes string : Kind

abbrev pub kind_of : Item → Kind
kind_of (Item.int32 v) = Kind.int32
kind_of (Item.uint32 v) = Kind.uint32
kind_of (Item.int64 v) = Kind.int64
kind_of (Item.uint64 v) = Kind.uint64
kind_of (Item.double v) = Kind.double
kind_of (Item.vector_header v) = Kind.vector_header
kind_of (Item.int128 v) = Kind.int128
kind_of (Item.int256 v) = Kind.int256
kind_of (Item.bytes v) = Kind.bytes
kind_of (Item.string v) = Kind.string

-- The C++ argument types, and the longest byte string that the three length bytes can hold.
abbrev pub Fits : Item → Type 0
Fits (Item.int32 v) = IsU32 v
Fits (Item.uint32 v) = IsU32 v
Fits (Item.int64 v) = IsU64 v
Fits (Item.uint64 v) = IsU64 v
Fits (Item.double v) = IsU64 v
Fits (Item.vector_header v) = IsU32 v
Fits (Item.int128 v) = length v ≡ 16
Fits (Item.int256 v) = length v ≡ 32
Fits (Item.bytes v) = length v < 2 ^ 24
Fits (Item.string v) = length v < 2 ^ 24

unfoldable pub write_item : TlWriter → Item → TlWriter
write_item w (Item.int32 v) = write_int32 w v
write_item w (Item.uint32 v) = write_uint32 w v
write_item w (Item.int64 v) = write_int64 w v
write_item w (Item.uint64 v) = write_uint64 w v
write_item w (Item.double v) = write_double w v
write_item w (Item.vector_header v) = write_vector_header w v
write_item w (Item.int128 v) = write_int128 w v
write_item w (Item.int256 v) = write_int256 w v
write_item w (Item.bytes v) = write_bytes w v
write_item w (Item.string v) = write_string w v

unfoldable pub write_items : TlWriter → List Item → TlWriter
unfolding write_item
write_items w [] = w
write_items w (i ∷ is) = write_items (write_item w i) is

unfoldable pub read_item : Kind → Read Item
read_item Kind.int32 = do v ← read_int32; pure (Item.int32 v)
read_item Kind.uint32 = do v ← read_uint32; pure (Item.uint32 v)
read_item Kind.int64 = do v ← read_int64; pure (Item.int64 v)
read_item Kind.uint64 = do v ← read_uint64; pure (Item.uint64 v)
read_item Kind.double = do v ← read_double; pure (Item.double v)
read_item Kind.vector_header = do v ← read_vector_header; pure (Item.vector_header v)
read_item Kind.int128 = do v ← read_int128; pure (Item.int128 v)
read_item Kind.int256 = do v ← read_int256; pure (Item.int256 v)
read_item Kind.bytes = do v ← read_bytes; pure (Item.bytes v)
read_item Kind.string = do v ← read_string; pure (Item.string v)

unfoldable pub read_items : List Kind → Read (List Item)
unfolding read_item
read_items [] = pure []
read_items (k ∷ ks) = do i ← read_item k; is ← read_items ks; pure (i ∷ is)

abbrev pub item_bytes : Item → List ℕ
item_bytes (Item.int32 v) = to_le 4 v
item_bytes (Item.uint32 v) = to_le 4 v
item_bytes (Item.int64 v) = to_le 8 v
item_bytes (Item.uint64 v) = to_le 8 v
item_bytes (Item.double v) = to_le 8 v
item_bytes (Item.vector_header v) = to_le 4 tl_vector ++ to_le 4 (v % 2 ^ 32)
item_bytes (Item.int128 v) = v
item_bytes (Item.int256 v) = v
item_bytes (Item.bytes v) = encoded v
item_bytes (Item.string v) = encoded v

abbrev pub items_bytes : List Item → List ℕ
items_bytes [] = []
items_bytes (i ∷ is) = item_bytes i ++ items_bytes is

write_item-append : (w : TlWriter) (i : Item) → write_item w i ≡ append w (item_bytes i)
unfolding write_item write_int32 write_uint32 write_int64 write_uint64 write_double write_int128
    write_int256 write_string write_vector_header
write_item-append w (Item.int32 v) = refl
write_item-append w (Item.uint32 v) = refl
write_item-append w (Item.int64 v) = refl
write_item-append w (Item.uint64 v) = refl
write_item-append w (Item.double v) = refl
write_item-append w (Item.vector_header v) = simp append_assoc
write_item-append w (Item.int128 v) = refl
write_item-append w (Item.int256 v) = refl
write_item-append w (Item.bytes v) = write_bytes-encoded w v
write_item-append w (Item.string v) = write_bytes-encoded w v

pub write_items-append :
    (w : TlWriter) (is : List Item) → (write_items w is).buffer ≡ w.buffer ++ items_bytes is
unfolding write_items
write_items-append w [] = sym (append-nil w.buffer)
write_items-append w (i ∷ is) =
    write_items-append (write_item w i) is
    ∙ rw (write_item-append w i) (append_assoc w.buffer (item_bytes i) (items_bytes is))

-- A read whose result is wrapped.
wrap-Reads :
    {A B : Type 0} (m : Read A) (f : A → B) (bs : List ℕ) (a : A)
    → Reads m bs a
    → Reads (m >>= λ v. pure (f v)) bs (f a)
wrap-Reads m f bs a h =
    subst (λ xs. Reads (m >>= λ v. pure (f v)) xs (f a)) (append-nil bs)
      (bind-Reads m (λ v. pure (f v)) bs [] a (f a) h (pure-Reads (f a)))

mod_u32 : (v : ℕ) → IsU32 v → v % 2 ^ 32 ≡ v
mod_u32 v h = omega arith

read_item-Reads : (i : Item) → Fits i → Reads (read_item (kind_of i)) (item_bytes i) i
unfolding read_item
read_item-Reads (Item.int32 v) h = wrap-Reads _ Item.int32 _ v (read_int32-Reads v h)
read_item-Reads (Item.uint32 v) h = wrap-Reads _ Item.uint32 _ v (read_uint32-Reads v h)
read_item-Reads (Item.int64 v) h = wrap-Reads _ Item.int64 _ v (read_int64-Reads v h)
read_item-Reads (Item.uint64 v) h = wrap-Reads _ Item.uint64 _ v (read_uint64-Reads v h)
read_item-Reads (Item.double v) h = wrap-Reads _ Item.double _ v (read_double-Reads v h)
read_item-Reads (Item.vector_header v) h =
    subst
      (λ n.
        Reads (read_item Kind.vector_header) (to_le 4 tl_vector ++ to_le 4 n)
          (Item.vector_header v))
      (sym (mod_u32 v h))
      (wrap-Reads read_vector_header Item.vector_header (to_le 4 tl_vector ++ to_le 4 v) v
        (read_vector_header-Reads v h))
read_item-Reads (Item.int128 v) h = wrap-Reads _ Item.int128 v v (read_int128-Reads v h)
read_item-Reads (Item.int256 v) h = wrap-Reads _ Item.int256 v v (read_int256-Reads v h)
read_item-Reads (Item.bytes v) h = wrap-Reads _ Item.bytes _ v (read_bytes-Reads v h)
read_item-Reads (Item.string v) h = wrap-Reads _ Item.string _ v (read_string-Reads v h)

pub read_items-Reads :
    (is : List Item) → All Fits is → Reads (read_items (map kind_of is)) (items_bytes is) is
unfolding read_items
read_items-Reads [] h = pure-Reads []
read_items-Reads (i ∷ is) h =
    bind-Reads (read_item (kind_of i)) (λ x. read_items (map kind_of is) >>= λ xs. pure (x ∷ xs))
      (item_bytes i) (items_bytes is) i (i ∷ is) (read_item-Reads i h.0)
      (wrap-Reads (read_items (map kind_of is)) (λ xs. i ∷ xs) (items_bytes is) is
        (read_items-Reads is h.1))
