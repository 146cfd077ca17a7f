-- ===== src/Common/Bits.antt =====
-- The bit operations of the source as arithmetic: masks, disjoint fields, and exclusive or.
use Prim.Native.Nat.{
  ℕ, zero, suc, ◌+◌, ◌-◌, ◌*◌, ◌/◌, ◌%◌, ◌^◌, ◌≤◌, ◌<◌, min, max, bit_and, bit_or, bit_xor, digits,
  differ, bitwise, bit_and-bitwise, bit_or-bitwise, bit_xor-bitwise,
}
use mathlib.Core.Path.{◌≡◌, refl, sym, ap, ◌∙◌}
use native.Mathlib.Omega.{arith}
use native.Mathlib.Nat.{pow-suc}

-- The operation of two numbers from that of their halves, and a digit.
abbrev IsDigitwise : (ℕ → ℕ → ℕ) → (ℕ → ℕ → ℕ) → ℕ → ℕ → Type 0
IsDigitwise op digit x y = op x y ≡ op (x / 2) (y / 2) * 2 + digit (x % 2) (y % 2)

-- The recursion on binary digits does not depend on its fuel, once that reaches the first number.
module _ (z : ℕ → ℕ) (f : ℕ → ℕ → ℕ) where
  enough_digits : (m n a b : ℕ) → a ≤ m → a ≤ n → digits z f m a b ≡ digits z f n a b
  enough_digits m n zero b p q = at_zero m ∙ sym (at_zero n)
    where
      at_zero : (k : ℕ) → digits z f k 0 b ≡ z b
      at_zero zero = refl
      at_zero (suc k) = refl
  enough_digits zero n (suc a) b p q = absurd (omega arith)
  enough_digits (suc m) zero (suc a) b p q = absurd (omega arith)
  enough_digits (suc m) (suc n) (suc a) b p q =
      ap (λ (t : ℕ). t * 2 + f (suc a % 2) (b % 2))
        (enough_digits m n (suc a / 2) (b / 2) (omega arith) (omega arith))

  low_digit : (x y : ℕ) → IsDigitwise (bitwise z f) f (suc x) y
  low_digit x y =
      ap (λ (t : ℕ). t * 2 + f (suc x % 2) (y % 2))
        (enough_digits x (suc x / 2) (suc x / 2) (y / 2) (omega arith) (omega arith))

pub bit_xor_step : (x y : ℕ) → IsDigitwise bit_xor differ x y
bit_xor_step zero y = simp bit_xor-bitwise (omega arith)
bit_xor_step (suc x) y = simp bit_xor-bitwise (low_digit (λ t. t) differ x y)

pub bit_and_step : (x y : ℕ) → IsDigitwise bit_and min x y
bit_and_step zero y = simp bit_and-bitwise (omega arith)
bit_and_step (suc x) y = simp bit_and-bitwise (low_digit (λ t. 0) min x y)

pub bit_or_step : (x y : ℕ) → IsDigitwise bit_or max x y
bit_or_step zero y = simp bit_or-bitwise (omega arith)
bit_or_step (suc x) y = simp bit_or-bitwise (low_digit (λ t. t) max x y)

zero-bit_or : (b : ℕ) → bit_or 0 b ≡ b
zero-bit_or b = bit_or-bitwise 0 b

zero-bit_and : (b : ℕ) → bit_and 0 b ≡ 0
zero-bit_and b = bit_and-bitwise 0 b

-- A field of `k` bits and one above it do not overlap: `r | (q << k)` is their sum.
pub bit_or_fields : (k q r : ℕ) → r < 2 ^ k → bit_or r (q * 2 ^ k) ≡ r + q * 2 ^ k
bit_or_fields zero q zero h = omega (arith, zero-bit_or (q * 2 ^ 0))
bit_or_fields zero q (suc r) h = absurd (omega arith)
bit_or_fields (suc k) q r h = ground (
  arith,
  bit_or_step r (q * 2 ^ suc k),
  ap (λ (t : ℕ). q * t) (pow-suc 2 k),
  pow-suc 2 k,
  bit_or_fields k q (r / 2),
)

bit_and-zero : (n a : ℕ) → a ≤ n → bit_and a 0 ≡ 0
bit_and-zero n zero h = refl
bit_and-zero zero (suc a) h = absurd (omega arith)
bit_and-zero (suc n) (suc a) h =
    omega (arith, bit_and_step (suc a) 0, bit_and-zero n (suc a / 2) (omega arith))

bit_and_nibble : (a : ℕ) → bit_and a 0x0f ≡ a % 16
bit_and_nibble a = omega (
  arith,
  bit_and_step a 0x0f,
  bit_and_step (a / 2) 0x07,
  bit_and_step (a / 2 / 2) 0x03,
  bit_and_step (a / 2 / 2 / 2) 0x01,
  bit_and-zero (a / 2 / 2 / 2 / 2) (a / 2 / 2 / 2 / 2) (omega arith),
)

-- `a & 0xff` is the lowest byte.
pub bit_and_byte : (a : ℕ) → bit_and a 0xff ≡ a % 256
bit_and_byte a = omega (
  arith,
  bit_and_step a 0xff,
  bit_and_step (a / 2) 0x7f,
  bit_and_step (a / 2 / 2) 0x3f,
  bit_and_step (a / 2 / 2 / 2) 0x1f,
  bit_and_nibble (a / 2 / 2 / 2 / 2),
)

differ_twice : (x y : ℕ) → x < 2 → y < 2 → differ (differ x y) y ≡ x
differ_twice zero zero h k = refl
differ_twice zero (suc zero) h k = refl
differ_twice (suc zero) zero h k = refl
differ_twice (suc zero) (suc zero) h k = refl
differ_twice (suc (suc x)) y h k = absurd (omega arith)
differ_twice _ (suc (suc y)) h k = absurd (omega arith)

differ-lt : (x y : ℕ) → x < 2 → y < 2 → differ x y < 2
differ-lt zero y h k = k
differ-lt (suc zero) zero h k = omega arith
differ-lt (suc zero) (suc zero) h k = omega arith
differ-lt (suc (suc x)) y h k = absurd (omega arith)
differ-lt _ (suc (suc y)) h k = absurd (omega arith)

-- Exclusive or with the same number twice gives the first number back.
xor_cancel_fuel : (n a b : ℕ) → a ≤ n → b ≤ n → bit_xor (bit_xor a b) b ≡ a
xor_cancel_fuel zero zero zero p q = refl
xor_cancel_fuel zero (suc a) b p q = absurd (omega arith)
xor_cancel_fuel zero zero (suc b) p q = absurd (omega arith)
xor_cancel_fuel (suc n) a b p q = omega (
  arith,
  bit_xor_step (bit_xor a b) b,
  halves,
  differ_digits,
  xor_cancel_fuel n (a / 2) (b / 2) (omega arith) (omega arith),
)
  where
    bound : differ (a % 2) (b % 2) < 2
    bound = differ-lt (a % 2) (b % 2) (omega arith) (omega arith)

    half : bit_xor a b / 2 ≡ bit_xor (a / 2) (b / 2)
    half = omega (arith, bit_xor_step a b, bound)

    halves : bit_xor (bit_xor a b / 2) (b / 2) ≡ bit_xor (bit_xor (a / 2) (b / 2)) (b / 2)
    halves = ap (λ (t : ℕ). bit_xor t (b / 2)) half

    digit : bit_xor a b % 2 ≡ differ (a % 2) (b % 2)
    digit = omega (arith, bit_xor_step a b, bound)

    differ_digits : differ (bit_xor a b % 2) (b % 2) ≡ a % 2
    differ_digits =
        ap (λ (t : ℕ). differ t (b % 2)) digit
        ∙ differ_twice (a % 2) (b % 2) (omega arith) (omega arith)

pub xor_cancel : (a b : ℕ) → bit_xor (bit_xor a b) b ≡ a
xor_cancel a b = xor_cancel_fuel (a + b) a b (omega arith) (omega arith)

-- Exclusive or stays within the width of its arguments.
pub xor-lt : (k a b : ℕ) → a < 2 ^ k → b < 2 ^ k → bit_xor a b < 2 ^ k
xor-lt zero zero zero p q = omega arith
xor-lt zero (suc a) b p q = absurd (omega arith)
xor-lt zero zero (suc b) p q = absurd (omega arith)
xor-lt (suc k) a b p q = ground (
  arith,
  pow-suc 2 k,
  bit_xor_step a b,
  differ-lt (a % 2) (b % 2) (omega arith) (omega arith),
  xor-lt k (a / 2) (b / 2),
)

-- A mask of `k` ones keeps the `k` lowest bits.
bit_and_fields : (k q r : ℕ) → r < 2 ^ k → bit_and (r + q * 2 ^ k) (2 ^ k - 1) ≡ r
bit_and_fields zero q zero h = bit_and-zero (0 + q * 1) (0 + q * 1) (omega arith)
bit_and_fields zero q (suc r) h = absurd (omega arith)
bit_and_fields (suc k) q r h = ground (
  arith,
  bit_and_step (r + q * 2 ^ suc k) (2 ^ suc k - 1),
  ap (λ (t : ℕ). q * t) (pow-suc 2 k),
  pow-suc 2 k,
  bit_and_fields k q (r / 2),
)

pub bit_and_word : (a : ℕ) → bit_and a 0xffffffff ≡ a % 2 ^ 32
bit_and_word a =
    ap (λ (t : ℕ). bit_and t 0xffffffff) parts
    ∙ bit_and_fields 32 (a / 2 ^ 32) (a % 2 ^ 32) (omega arith)
  where
    parts : a ≡ a % 2 ^ 32 + a / 2 ^ 32 * 2 ^ 32
    parts = omega arith

bit_and_ones62 : (a : ℕ) → bit_and a (2 ^ 62 - 1) ≡ a % 2 ^ 62
bit_and_ones62 a =
    ap (λ (t : ℕ). bit_and t (2 ^ 62 - 1)) parts
    ∙ bit_and_fields 62 (a / 2 ^ 62) (a % 2 ^ 62) (omega arith)
  where
    parts : a ≡ a % 2 ^ 62 + a / 2 ^ 62 * 2 ^ 62
    parts = omega arith

-- `a & ~3` on 64-bit words.
pub bit_and_not3 : (a : ℕ) → a < 2 ^ 64 → bit_and a (2 ^ 64 - 4) ≡ a / 4 * 4
bit_and_not3 a h = omega (
  arith,
  bit_and_step a (2 ^ 64 - 4),
  bit_and_step (a / 2) (2 ^ 63 - 2),
  bit_and_ones62 (a / 2 / 2),
)

bit_or_comm_fuel : (n a b : ℕ) → a ≤ n → b ≤ n → bit_or a b ≡ bit_or b a
bit_or_comm_fuel zero zero zero p q = refl
bit_or_comm_fuel zero (suc a) b p q = absurd (omega arith)
bit_or_comm_fuel zero zero (suc b) p q = absurd (omega arith)
bit_or_comm_fuel (suc n) a b p q = omega (
  arith,
  bit_or_step a b,
  bit_or_step b a,
  bit_or_comm_fuel n (a / 2) (b / 2) (omega arith) (omega arith),
)

pub bit_or_comm : (a b : ℕ) → bit_or a b ≡ bit_or b a
bit_or_comm a b = bit_or_comm_fuel (a + b) a b (omega arith) (omega arith)
