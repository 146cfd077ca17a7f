-- ===== src/Common/Bytes.antt =====
-- Little-endian words: what `memcpy` of an unsigned integer writes and reads on the targets of the
-- library, and the same by shifts and masks.
use Prim.Native.Nat.{ℕ, zero, suc, ◌+◌, ◌*◌, ◌/◌, ◌%◌, ◌^◌, ◌<◌, bit_and, bit_or}
use mathlib.Core.Path.{◌≡◌, refl, ap, ◌∙◌, subst}
use mathlib.Core.List.{List, [], ◌∷◌}
use native.Mathlib.Omega.{arith}
use native.Mathlib.Nat.{pow-suc}
use cpp_gram.Common.Lists.{length, All, get_or}
use cpp_gram.Common.Bits.{bit_or_fields, bit_and_byte}

abbrev pub IsByte : ℕ → Type 0
IsByte b = b < 256

abbrev pub IsU32 : ℕ → Type 0
IsU32 n = n < 2 ^ 32

abbrev pub IsU64 : ℕ → Type 0
IsU64 n = n < 2 ^ 64

-- The `n` low bytes of a word, lowest first.
unfoldable pub to_le : ℕ → ℕ → List ℕ
to_le zero v = []
to_le (suc n) v = (v % 256) ∷ to_le n (v / 256)

unfoldable pub of_le : List ℕ → ℕ
of_le [] = 0
of_le (b ∷ bs) = b + 256 * of_le bs

pub length-to_le : (n v : ℕ) → length (to_le n v) ≡ n
unfolding to_le
length-to_le zero v = refl
length-to_le (suc n) v = ap suc (length-to_le n (v / 256))

pub to_le-IsByte : (n v : ℕ) → All IsByte (to_le n v)
unfolding to_le
to_le-IsByte zero v = tt
to_le-IsByte (suc n) v = (omega arith, to_le-IsByte n (v / 256))

pub of_le-to_le : (n v : ℕ) → v < 256 ^ n → of_le (to_le n v) ≡ v
unfolding of_le to_le
of_le-to_le zero v h = omega arith
of_le-to_le (suc n) v h = omega (arith, of_le-to_le n (v / 256) (omega (arith, pow-suc 256 n)))

pub of_le-lt : (bs : List ℕ) → All IsByte bs → of_le bs < 256 ^ length bs
unfolding of_le
of_le-lt [] h = omega arith
of_le-lt (b ∷ bs) (hb, hbs) = omega (arith, of_le-lt bs hbs, pow-suc 256 (length bs))

-- `b0 | (b1 << 8) | (b2 << 16)`, and with a fourth byte.
unfoldable pub le24 : ℕ → ℕ → ℕ → ℕ
le24 b0 b1 b2 = bit_or (bit_or b0 (b1 * 2 ^ 8)) (b2 * 2 ^ 16)

unfoldable pub le32 : ℕ → ℕ → ℕ → ℕ → ℕ
unfolding le24
le32 b0 b1 b2 b3 = bit_or (le24 b0 b1 b2) (b3 * 2 ^ 24)

pub le24_lem :
    (b0 b1 b2 : ℕ) → IsByte b0 → IsByte b1 → le24 b0 b1 b2 ≡ b0 + b1 * 2 ^ 8 + b2 * 2 ^ 16
unfolding le24
le24_lem b0 b1 b2 h0 h1 =
    ap (λ (t : ℕ). bit_or t (b2 * 2 ^ 16)) (bit_or_fields 8 b1 b0 h0)
    ∙ bit_or_fields 16 b2 (b0 + b1 * 2 ^ 8) (omega arith)

pub le32_lem :
    (b0 b1 b2 b3 : ℕ)
    → IsByte b0
    → IsByte b1
    → IsByte b2
    → le32 b0 b1 b2 b3 ≡ b0 + b1 * 2 ^ 8 + b2 * 2 ^ 16 + b3 * 2 ^ 24
unfolding le32
le32_lem b0 b1 b2 b3 h0 h1 h2 =
    ap (λ (t : ℕ). bit_or t (b3 * 2 ^ 24)) (le24_lem b0 b1 b2 h0 h1)
    ∙ bit_or_fields 24 b3 (b0 + b1 * 2 ^ 8 + b2 * 2 ^ 16) (omega arith)

-- `static_cast<uint8_t>((v >> (8 * i)) & 0xff)`
unfoldable pub byte_at : ℕ → ℕ → ℕ
byte_at v i = bit_and (v / 2 ^ (8 * i)) 0xff

pub byte_at_lem : (v i : ℕ) → byte_at v i ≡ v / 2 ^ (8 * i) % 256
unfolding byte_at
byte_at_lem v i = bit_and_byte (v / 2 ^ (8 * i))

pub byte_at-IsByte : (v i : ℕ) → IsByte (byte_at v i)
byte_at-IsByte v i = omega (arith, byte_at_lem v i)

-- The bytes that shifts and masks cut out of a word go back together by `|`.
pub le32-byte_at :
    (v : ℕ) → IsU32 v → le32 (byte_at v 0) (byte_at v 1) (byte_at v 2) (byte_at v 3) ≡ v
le32-byte_at v h = omega (
  arith,
  le32_lem (byte_at v 0) (byte_at v 1) (byte_at v 2) (byte_at v 3) (byte_at-IsByte v 0)
      (byte_at-IsByte v 1) (byte_at-IsByte v 2),
  byte_at_lem v 0,
  byte_at_lem v 1,
  byte_at_lem v 2,
  byte_at_lem v 3,
)

pub le24-byte_at : (v : ℕ) → v < 2 ^ 24 → le24 (byte_at v 0) (byte_at v 1) (byte_at v 2) ≡ v
le24-byte_at v h = omega (
  arith,
  le24_lem (byte_at v 0) (byte_at v 1) (byte_at v 2) (byte_at-IsByte v 0) (byte_at-IsByte v 1),
  byte_at_lem v 0,
  byte_at_lem v 1,
  byte_at_lem v 2,
)

pub get_or-IsByte : (s : List ℕ) (i : ℕ) → All IsByte s → IsByte (get_or s i 0)
get_or-IsByte [] i h = omega arith
get_or-IsByte (b ∷ s) zero h = h.0
get_or-IsByte (b ∷ s) (suc i) h = get_or-IsByte s i h.1

pub of_le-IsU32 : (b : List ℕ) → All IsByte b → length b ≡ 4 → IsU32 (of_le b)
of_le-IsU32 b h e = subst (λ (k : ℕ). of_le b < 256 ^ k) e (of_le-lt b h)
