-- ===== src/Tl/Tests.antt =====
-- Concrete inputs for the serialisation.
use cpp_gram.Common.{
  ℕ, ◌≡◌, ◌⊎◌, ◌^◌, ◌-◌, refl, List, [], ◌∷◌, ◌++◌, map, length, drop, some, none, ok, throws,
  arith, ◌%◌, ◌≤◌,
}
use cpp_gram.Tl.{
  TlReader, new_writer, new_reader, write_invoke_with_layer, write_init_connection, read_bytes,
  read_invoke_with_layer, InitConnection, underflow, write_bytes,
}
use cpp_gram.Tl.Item.{Item, Kind, kind_of, write_items, read_items}
use cpp_gram.Tl.RoundTrip.{
  init_items, read_items-write_items, read-write_init_connection, read_invoke_with_layer_lem,
}
use cpp_gram.Tl.Bounds.{Sound, read_items-IsSound, write_items_aligned}
use cpp_gram.Tl.Truncation.{read_bytes_truncated}

abbrev items : List Item
items = Item.int32 7 ∷ Item.string (104 ∷ 105 ∷ []) ∷ Item.int64 (2 ^ 64 - 1) ∷ []

read_items-write_items_example :
    read_items (map kind_of items) (new_reader ((write_items new_writer items).buffer ++ (9 ∷ [])))
    ≡ (
      ok items,
      record {
        bytes = (write_items new_writer items).buffer ++ (9 ∷ []);
        offset = length (write_items new_writer items).buffer;
      },
    )
read_items-write_items_example =
    read_items-write_items items (9 ∷ []) (omega arith, (omega arith, (omega arith, tt)))

abbrev init : InitConnection
init = record {
  api_id = 42;
  device_model = 80 ∷ 67 ∷ [];
  system_version = 76 ∷ [];
  app_version = 49 ∷ [];
  system_lang_code = 101 ∷ 110 ∷ [];
  lang_pack = [];
  lang_code = 101 ∷ 110 ∷ [];
  query = 1 ∷ 2 ∷ 3 ∷ 4 ∷ [];
}

read-write_init_connection_example :
    (r : TlReader) × (read_items
        (map kind_of (init_items init))
        (new_reader (write_init_connection new_writer init).buffer)
      ≡ (ok (init_items init), r))
    × (drop r.offset r.bytes ≡ (1 ∷ 2 ∷ 3 ∷ 4 ∷ []))
read-write_init_connection_example = read-write_init_connection init (
  omega arith,
  (
    omega arith,
    (
      omega arith,
      (omega arith, (omega arith, (omega arith, (omega arith, (omega arith, (omega arith, tt)))))),
    ),
  ),
)

abbrev three_bytes : TlReader
three_bytes = new_reader (1 ∷ 2 ∷ 3 ∷ [])

read_invoke_with_layer_lem_example :
    (let written = (write_invoke_with_layer new_writer 170 (1 ∷ 2 ∷ [])).buffer in
      read_invoke_with_layer (new_reader written)
      ≡ (ok (some (170, 1 ∷ 2 ∷ [])), record { bytes = written; offset = length written }))
    × ((read_invoke_with_layer three_bytes ≡ (ok none, three_bytes))
        ⊎ ((l : ℕ) × (read_invoke_with_layer three_bytes
              ≡ (ok (some (l, drop 8 (1 ∷ 2 ∷ 3 ∷ []))), record three_bytes { offset = 3 }))
            × (8 ≤ 3)))
read_invoke_with_layer_lem_example =
    read_invoke_with_layer_lem 170 (1 ∷ 2 ∷ []) three_bytes (omega arith)

read_items-IsSound_example :
    Sound three_bytes (read_items (Kind.bytes ∷ Kind.int32 ∷ []) three_bytes)
read_items-IsSound_example =
    read_items-IsSound (Kind.bytes ∷ Kind.int32 ∷ []) three_bytes (omega arith)

aligned_items : length (write_items new_writer items).buffer % 4 ≡ 0
aligned_items = write_items_aligned new_writer items (omega arith, (omega arith, (omega arith, tt)))

read_bytes_truncated_example : (read_bytes (new_reader (2 ∷ 65 ∷ 66 ∷ []))).0 ≡ throws underflow
read_bytes_truncated_example =
    read_bytes_truncated (65 ∷ 66 ∷ []) (2 ∷ 65 ∷ 66 ∷ []) 0 [] (omega arith) refl

-- A short string of two bytes is padded to one word.
write_bytes_short : (write_bytes new_writer (65 ∷ 66 ∷ [])).buffer ≡ (2 ∷ 65 ∷ 66 ∷ 0 ∷ [])
unfolding write_bytes
write_bytes_short = refl
