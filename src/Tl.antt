-- ===== src/Tl.antt =====
-- include/cppgram/tl.hpp and src/core/tl.cpp: the binary TL codec. A byte vector is a list of
-- numbers below 256. Signed integers and doubles are their bit patterns, which is what the code
-- copies; a `std::string` is the list of its bytes.
pub mod Reads
pub mod Prefixed
pub mod Item
pub mod RoundTrip
pub mod Bounds
pub mod Truncation
mod Tests
use cpp_gram.Common.{
  ℕ, ◌+◌, ◌-◌, ◌%◌, ◌^◌, Bool, List, [], ◌∷◌, ◌++◌, Option, none, some, length, get_or, take, drop,
  replicate, leb, ltb, ◌==◌, if◌then◌else◌, not, Outcome, ok, throws, resume,
}
use cpp_gram.Common.Bytes.{to_le, of_le, le24, byte_at}

abbrev pub tl_vector : ℕ
tl_vector = 0x1cb5c415

abbrev pub tl_invoke_with_layer : ℕ
tl_invoke_with_layer = 0xda9b0d0d

abbrev pub tl_init_connection : ℕ
tl_init_connection = 0xc1cd5ea9

abbrev pub tl_ping : ℕ
tl_ping = 0x7abe77ec

abbrev pub tl_pong : ℕ
tl_pong = 0x347773c5

-- TLWriter

pub record TlWriter : Type 0 where
  pub buffer : List ℕ

abbrev pub new_writer : TlWriter
new_writer = record { buffer = [] }

abbrev clear : TlWriter → TlWriter
clear w = new_writer

-- `take_data` moves the buffer out, and leaves the writer as `clear` does.
abbrev pub take_data : TlWriter → List ℕ × TlWriter
take_data w = (w.buffer, new_writer)

-- `buffer_.insert(buffer_.end(), …)`
abbrev pub append : TlWriter → List ℕ → TlWriter
append w bytes = record w { buffer = w.buffer ++ bytes }

unfoldable pub write_uint32 : TlWriter → ℕ → TlWriter
write_uint32 w val = append w (to_le 4 val)

unfoldable pub write_int32 : TlWriter → ℕ → TlWriter
write_int32 w val = write_uint32 w val

unfoldable pub write_uint64 : TlWriter → ℕ → TlWriter
write_uint64 w val = append w (to_le 8 val)

unfoldable pub write_int64 : TlWriter → ℕ → TlWriter
write_int64 w val = write_uint64 w val

unfoldable pub write_int128 : TlWriter → List ℕ → TlWriter
write_int128 w val = append w val

unfoldable pub write_int256 : TlWriter → List ℕ → TlWriter
write_int256 w val = append w val

unfoldable pub write_double : TlWriter → ℕ → TlWriter
write_double w val = append w (to_le 8 val)

-- The number of zero bytes after a header and contents of `n` bytes.
abbrev pub padding : ℕ → ℕ
padding n = (4 - n % 4) % 4

write_short : TlWriter → List ℕ → TlWriter
write_short w bytes =
    let len = length bytes in
    let w1 = append w ((len % 256) ∷ []) in
    let w2 = append w1 bytes in append w2 (replicate (padding (1 + len)) 0)

write_long : TlWriter → List ℕ → TlWriter
write_long w bytes =
    let len = length bytes in
    let w1 = append w (0xfe ∷ []) in
    let w2 = append w1 (byte_at len 0 ∷ []) in
    let w3 = append w2 (byte_at len 1 ∷ []) in
    let w4 = append w3 (byte_at len 2 ∷ []) in
    let w5 = append w4 bytes in append w5 (replicate (padding (4 + len)) 0)

unfoldable pub write_bytes : TlWriter → List ℕ → TlWriter
unfolding write_short write_long
write_bytes w bytes = if leb (length bytes) 253 then write_short w bytes else write_long w bytes

unfoldable pub write_string : TlWriter → List ℕ → TlWriter
write_string w str = write_bytes w str

unfoldable pub write_vector_header : TlWriter → ℕ → TlWriter
write_vector_header w count = write_uint32 (write_uint32 w tl_vector) (count % 2 ^ 32)

unfoldable pub write_invoke_with_layer : TlWriter → ℕ → List ℕ → TlWriter
write_invoke_with_layer w layer query =
    append (write_int32 (write_uint32 w tl_invoke_with_layer) layer) query

-- The arguments of `initConnection`.
pub record InitConnection : Type 0 where
  pub api_id : ℕ
  pub device_model : List ℕ
  pub system_version : List ℕ
  pub app_version : List ℕ
  pub system_lang_code : List ℕ
  pub lang_pack : List ℕ
  pub lang_code : List ℕ
  pub query : List ℕ

unfoldable pub write_init_connection : TlWriter → InitConnection → TlWriter
write_init_connection w a =
    let w1 = write_uint32 w tl_init_connection in
    let w2 = write_uint32 w1 0 in
    let w3 = write_int32 w2 a.api_id in
    let w4 = write_string w3 a.device_model in
    let w5 = write_string w4 a.system_version in
    let w6 = write_string w5 a.app_version in
    let w7 = write_string w6 a.system_lang_code in
    let w8 = write_string w7 a.lang_pack in
    let w9 = write_string w8 a.lang_code in append w9 a.query

-- TLReader

pub record TlReader : Type 0 where
  pub bytes : List ℕ
  pub offset : ℕ

abbrev pub new_reader : List ℕ → TlReader
new_reader bytes = record { bytes = bytes; offset = 0 }

pub data TlError : Type 0 where
  underflow bad_length_prefix bad_vector out_of_range : TlError

abbrev pub Read : Type 0 → Type 0
Read A = TlReader → Outcome TlError A × TlReader

infixl 5 ◌>>=◌
abbrev pub ◌>>=◌ : {A B : Type 0} → Read A → (A → Read B) → Read B
◌>>=◌ m f r = resume (m r) f

abbrev pub pure : {A : Type 0} → A → Read A
pure a r = (ok a, r)

abbrev pub advance : TlReader → ℕ → TlReader
advance r n = record r { offset = r.offset + n }

unfoldable pub has_remaining : TlReader → ℕ → Bool
has_remaining r n = leb (r.offset + n) (length r.bytes)

unfoldable pub remaining_bytes : TlReader → ℕ
remaining_bytes r = if ltb r.offset (length r.bytes) then length r.bytes - r.offset else 0

unfoldable pub set_offset : TlReader → ℕ → Outcome TlError (Unit {0}) × TlReader
set_offset r offset =
    if ltb (length r.bytes) offset
    then (throws out_of_range, r)
    else (ok tt, record r { offset = offset })

-- `if (!has_remaining(n)) throw …; memcpy(&val, data_.data() + offset_, n); offset_ += n;`
unfoldable pub read_raw : ℕ → Read (List ℕ)
unfolding has_remaining
read_raw n r =
    if has_remaining r n
    then (ok (take n (drop r.offset r.bytes)), advance r n)
    else (throws underflow, r)

unfoldable pub read_uint32 : Read ℕ
read_uint32 = do val ← read_raw 4; pure (of_le val)

unfoldable pub read_int32 : Read ℕ
read_int32 = read_uint32

unfoldable pub read_uint64 : Read ℕ
read_uint64 = do val ← read_raw 8; pure (of_le val)

unfoldable pub read_int64 : Read ℕ
read_int64 = read_uint64

unfoldable pub read_int128 : Read (List ℕ)
read_int128 = read_raw 16

unfoldable pub read_int256 : Read (List ℕ)
read_int256 = read_raw 32

unfoldable pub read_double : Read ℕ
read_double = do val ← read_raw 8; pure (of_le val)

-- `data_[offset_++]`
next_byte : Read ℕ
next_byte r = (ok (get_or r.bytes r.offset 0), advance r 1)

require : ℕ → Read (Unit {0})
unfolding has_remaining
require n r = if has_remaining r n then (ok tt, r) else (throws underflow, r)

skip : ℕ → Read (Unit {0})
skip n r = (ok tt, advance r n)

-- The contents and the padding, after a header of `header_len` bytes.
unfoldable pub read_contents : ℕ → ℕ → Read (List ℕ)
unfolding require skip
read_contents header_len len = do
  result ← read_raw len
  _ ← require (padding (header_len + len))
  _ ← skip (padding (header_len + len))
  pure result

unfoldable pub read_long : Read (List ℕ)
unfolding require next_byte
read_long = do
  _ ← require 3
  b0 ← next_byte
  b1 ← next_byte
  b2 ← next_byte
  read_contents 4 (le24 b0 b1 b2)

bad_prefix : Read (List ℕ)
bad_prefix r = (throws bad_length_prefix, r)

unfoldable pub read_prefixed : ℕ → Read (List ℕ)
unfolding bad_prefix
read_prefixed first_byte =
    if leb first_byte 253
    then read_contents 1 first_byte
    else if first_byte == 0xfe
    then read_long
    else bad_prefix

unfoldable pub read_bytes : Read (List ℕ)
unfolding require next_byte read_prefixed
read_bytes = do _ ← require 1; first_byte ← next_byte; read_prefixed first_byte

unfoldable pub read_string : Read (List ℕ)
read_string = read_bytes

check_vector : ℕ → Read ℕ
check_vector ctor r = if not (ctor == tl_vector) then (throws bad_vector, r) else read_uint32 r

unfoldable pub read_vector_header : Read ℕ
unfolding check_vector
read_vector_header = do ctor ← read_uint32; check_vector ctor

-- The out parameters are the layer and the query of a `some`; `none` is the answer `false`.
take_query : ℕ → Read (Option (ℕ × List ℕ))
unfolding remaining_bytes
take_query layer r =
    let rem = remaining_bytes r in
    (ok (some (layer, take rem (drop r.offset r.bytes))), advance r rem)

check_layer : TlReader → ℕ → Read (Option (ℕ × List ℕ))
unfolding take_query
check_layer saved ctor r =
    if not (ctor == tl_invoke_with_layer)
    then (ok none, record r { offset = saved.offset })
    else (read_int32 >>= take_query) r

unfoldable pub read_invoke_with_layer : Read (Option (ℕ × List ℕ))
unfolding has_remaining check_layer
read_invoke_with_layer r =
    if not (has_remaining r 8) then (ok none, r) else (read_uint32 >>= check_layer r) r
