-- ===== src/Tl/RoundTrip.antt =====
-- What the writer appends is what the reader returns: streams of values, and the two envelopes of
-- an API query.
use cpp_gram.Common.{
  ℕ, ◌+◌, ◌≤◌, ◌<◌, ◌≡◌, refl, ap, ◌∙◌, List, [], ◌∷◌, ◌++◌, append_assoc, map, length, take, drop,
  arith, ok, All, length-append, drop-append, some, none, le→leb, lt→leb, take-all, length-drop,
  ◌⊎◌, inl, inr, Bool-cases, leb→le, ◌==◌, leb, true, false,
}
use cpp_gram.Common.Bytes.{to_le, of_le, IsU32, length-to_le}
use cpp_gram.Tl.{
  TlWriter, new_writer, append, write_int32, write_uint32, TlReader, new_reader, advance,
  InitConnection, write_init_connection, tl_init_connection, tl_invoke_with_layer, read_raw,
  read_uint32, read_int32, write_invoke_with_layer, read_invoke_with_layer, ◌>>=◌, check_layer,
  take_query, remaining_bytes,
}
use cpp_gram.Tl.Reads.{
  Remaining, read_uint32-Reads, read_int32-Reads, advance-Remaining, length-Remaining,
}
use cpp_gram.Tl.Item.{
  Item, kind_of, Fits, write_items, read_items, items_bytes, write_items-append, read_items-Reads,
}

new_reader-Remaining : (bs : List ℕ) → Remaining (new_reader bs) bs
new_reader-Remaining bs = record { within = omega arith; left = refl }

-- Values that fit their types are read back, in order, from what the writer has appended for them;
-- whatever follows in the input is left, and the reader stands at its first byte.
pub read_items-write_items :
    (is : List Item) (rest : List ℕ)
    → All Fits is
    → let written = (write_items new_writer is).buffer in
      read_items (map kind_of is) (new_reader (written ++ rest))
      ≡ (ok is, record { bytes = written ++ rest; offset = length written })
read_items-write_items is rest h = rw (write_items-append new_writer is) (
    read_items-Reads is h (new_reader (items_bytes is ++ rest)) rest (new_reader-Remaining _)
    ∙ ground arith)

-- The fields of an `initConnection` query, as a stream.
abbrev pub init_items : InitConnection → List Item
init_items a =
    Item.uint32 tl_init_connection
    ∷ Item.uint32 0
    ∷ Item.int32 a.api_id
    ∷ Item.string a.device_model
    ∷ Item.string a.system_version
    ∷ Item.string a.app_version
    ∷ Item.string a.system_lang_code
    ∷ Item.string a.lang_pack
    ∷ Item.string a.lang_code
    ∷ []

write_init_connection-items :
    (w : TlWriter) (a : InitConnection)
    → write_init_connection w a ≡ append (write_items w (init_items a)) a.query
unfolding write_init_connection write_items
write_init_connection-items w a = refl

-- The reader gets the constructor, the zero flags and the seven arguments of `initConnection` in the
-- documented order, and the wrapped query is all that is then left, if the arguments fit their types.
pub read-write_init_connection :
    (a : InitConnection)
    → All Fits (init_items a)
    → let written = (write_init_connection new_writer a).buffer in
      (r : TlReader) × (read_items (map kind_of (init_items a)) (new_reader written)
        ≡ (ok (init_items a), r))
      × (drop r.offset r.bytes ≡ a.query)
read-write_init_connection a h = (
  record { bytes = (write_init_connection new_writer a).buffer; offset = length fields },
  rw (write_init_connection-items new_writer a) (read_items-write_items (init_items a) a.query h),
  rw (write_init_connection-items new_writer a) (drop-append (length fields) fields a.query refl),
)
  where
    fields : List ℕ
    fields = (write_items new_writer (init_items a)).buffer

remaining_bytes-Remaining :
    (r : TlReader) (bs : List ℕ) → Remaining r bs → remaining_bytes r ≡ length bs
unfolding remaining_bytes
remaining_bytes-Remaining r bs h = ground (arith, length-Remaining r bs h)

take_query-Remaining :
    (layer : ℕ) (r : TlReader) (bs : List ℕ)
    → Remaining r bs
    → take_query layer r ≡ (ok (some (layer, bs)), advance r (length bs))
unfolding take_query
take_query-Remaining layer r bs h =
    rw (remaining_bytes-Remaining r bs h) (rw h.left (rw (take-all (length bs) bs (omega arith))))

-- From the constructor on, the layer is read and all that follows is the query.
layer_of :
    (r : TlReader) (layer : ℕ) (query : List ℕ)
    → IsU32 layer
    → Remaining r (to_le 4 layer ++ query)
    → (read_int32 >>= take_query) r ≡ (ok (some (layer, query)), advance r (4 + length query))
layer_of r layer query fits h = rw (read_int32-Reads layer fits r query h) (
    take_query-Remaining layer _ query (advance-Remaining r (to_le 4 layer) query h)
    ∙ ground (arith, length-to_le 4 layer))

too_short : (r : TlReader) → length r.bytes < r.offset + 8 → read_invoke_with_layer r ≡ (ok none, r)
unfolding read_invoke_with_layer
too_short r h = rw (lt→leb _ _ h)

long_enough :
    (r : TlReader)
    → r.offset + 8 ≤ length r.bytes
    → read_invoke_with_layer r ≡ (read_uint32 >>= check_layer r) r
unfolding read_invoke_with_layer
long_enough r h = rw (le→leb _ _ h)

check_layer_other :
    (saved : TlReader) (ctor n : ℕ)
    → (ctor == tl_invoke_with_layer) ≡ false
    → check_layer saved ctor (advance saved n) ≡ (ok none, saved)
unfolding check_layer
check_layer_other saved ctor n e = rw e

check_layer_same :
    (saved r : TlReader) (ctor : ℕ)
    → (ctor == tl_invoke_with_layer) ≡ true
    → check_layer saved ctor r ≡ (read_int32 >>= take_query) r
unfolding check_layer
check_layer_same saved r ctor e = rw e

read-write_invoke_with_layer :
    (layer : ℕ) (query : List ℕ)
    → IsU32 layer
    → let written = (write_invoke_with_layer new_writer layer query).buffer in
      read_invoke_with_layer (new_reader written)
      ≡ (ok (some (layer, query)), record { bytes = written; offset = length written })
unfolding write_invoke_with_layer write_int32 write_uint32
read-write_invoke_with_layer layer query fits =
    long_enough start (omega (arith, size))
    ∙ rw (read_uint32-Reads tl_invoke_with_layer (omega arith) start (l ++ query) whole) (
        check_layer_same start (advance start (length t)) tl_invoke_with_layer refl
        ∙ layer_of (advance start (length t)) layer query fits
            (advance-Remaining start t (l ++ query) whole)
        ∙ ground (arith, size, length-to_le 4 tl_invoke_with_layer))
  where
    t : List ℕ
    t = to_le 4 tl_invoke_with_layer

    l : List ℕ
    l = to_le 4 layer

    start : TlReader
    start = new_reader ((t ++ l) ++ query)

    whole : Remaining start (t ++ (l ++ query))
    whole = record { within = omega arith; left = append_assoc t l query }

    size : length ((t ++ l) ++ query) ≡ 8 + length query
    size = omega (
      arith,
      length-append (t ++ l) query,
      length-append t l,
      length-to_le 4 tl_invoke_with_layer,
      length-to_le 4 layer,
    )

word_in_range :
    (r : TlReader)
    → r.offset + 4 ≤ length r.bytes
    → (v : ℕ) × (read_uint32 r ≡ (ok v, advance r 4)) × (read_int32 r ≡ (ok v, advance r 4))
unfolding read_int32 read_uint32 read_raw
word_in_range r h = (of_le (take 4 (drop r.offset r.bytes)), rw (le→leb _ _ h), rw (le→leb _ _ h))

-- Past the constructor, whatever the layer.
layer_in_range :
    (r : TlReader)
    → r.offset + 8 ≤ length r.bytes
    → (layer : ℕ) × ((read_int32 >>= take_query) (advance r 4)
        ≡ (ok (some (layer, drop (r.offset + 8) r.bytes)), record r { offset = length r.bytes }))
layer_in_range r h =
    let (layer, _u, e) = word_in_range (advance r 4) (omega arith) in
    (
      layer,
      rw e (
          take_query-Remaining layer (advance (advance r 4) 4) (drop (r.offset + 8) r.bytes)
            (record { within = omega arith; left = ap (λ (n : ℕ). drop n r.bytes) eight })
          ∙ ground (arith, length-drop (r.offset + 8) r.bytes)),
    )
  where
    eight : r.offset + 4 + 4 ≡ r.offset + 8
    eight = omega arith

-- On no input does `read_invoke_with_layer` throw. It answers `false` with the reader where it was,
-- or it takes everything that is left: the constructor, four bytes of layer, and the query.
read_invoke_with_layer_total :
    (r : TlReader)
    → (read_invoke_with_layer r ≡ (ok none, r))
      ⊎ ((layer : ℕ) × (read_invoke_with_layer r ≡ (
        ok (some (layer, drop (r.offset + 8) r.bytes)),
        record r { offset = length r.bytes },
      ))
          × (r.offset + 8 ≤ length r.bytes))
read_invoke_with_layer_total r = elim (Bool-cases (leb (r.offset + 8) (length r.bytes))) [
  | inr short ↦ inl (too_short r (ground arith))
  | inl long ↦
      let (ctor, e, _i) = word_in_range r (ground arith) in
      let start = long_enough r (leb→le _ _ long) in
      elim (Bool-cases (ctor == tl_invoke_with_layer)) [
        | inr other ↦ inl (start ∙ rw e (check_layer_other r ctor 4 other))
        | inl same ↦
            let (layer, found) = layer_in_range r (leb→le _ _ long) in
            inr (
              layer,
              start ∙ rw e (check_layer_same r (advance r 4) ctor same ∙ found),
              leb→le _ _ long,
            )
      ]
]

-- `invokeWithLayer` in front of a query is taken off again: the layer and the query come back, and
-- nothing is left. And on no input does `read_invoke_with_layer` throw: it answers `false` with the
-- reader where it was, or it takes everything that is left: the constructor, four bytes of layer, and
-- the query.
pub read_invoke_with_layer_lem :
    (layer : ℕ) (query : List ℕ) (r : TlReader)
    → IsU32 layer
    → (let written = (write_invoke_with_layer new_writer layer query).buffer in
        read_invoke_with_layer (new_reader written)
        ≡ (ok (some (layer, query)), record { bytes = written; offset = length written }))
      × ((read_invoke_with_layer r ≡ (ok none, r))
          ⊎ ((l : ℕ) × (read_invoke_with_layer r ≡ (
            ok (some (l, drop (r.offset + 8) r.bytes)),
            record r { offset = length r.bytes },
          ))
              × (r.offset + 8 ≤ length r.bytes)))
read_invoke_with_layer_lem layer query r fits =
    (read-write_invoke_with_layer layer query fits, read_invoke_with_layer_total r)
