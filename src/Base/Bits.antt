-- ===== src/Base/Bits.antt =====
-- `&` and `|` at variables, as arithmetic.
use Prim.Native.Nat.{
  ℕ, zero, suc, ◌+◌, ◌*◌, ◌/◌, ◌%◌, ◌^◌, ◌≤◌, ◌<◌, min, bit_and, digits, bit_and-bitwise,
}
use mathlib.Core.Path.{◌≡◌, refl, ap, sym}
use native.Mathlib.Omega.{arith}
use native.Mathlib.Nat.{pow-suc, pow-succ', mul_assoc, mul-one, div-one, div-div-eq-div-mul}

-- The digit recursion that `&` stands for, at any fuel that covers its first argument.
abbrev min_digits : ℕ → ℕ → ℕ → ℕ
min_digits n a b = digits (λ _. zero) min n a b

min_digits_irrelevant : (m n a b : ℕ) → a ≤ m → a ≤ n → min_digits m a b ≡ min_digits n a b
min_digits_irrelevant zero zero zero b p q = refl
min_digits_irrelevant zero zero (suc a) b p q = absurd (omega arith)
min_digits_irrelevant zero (suc n) zero b p q = refl
min_digits_irrelevant zero (suc n) (suc a) b p q = absurd (omega arith)
min_digits_irrelevant (suc m) zero zero b p q = refl
min_digits_irrelevant (suc m) zero (suc a) b p q = absurd (omega arith)
min_digits_irrelevant (suc m) (suc n) zero b p q = refl
min_digits_irrelevant (suc m) (suc n) (suc a) b p q =
    omega (arith, min_digits_irrelevant m n (suc a / 2) (b / 2) (omega arith) (omega arith))

pub zero-bit_and : (b : ℕ) → bit_and 0 b ≡ 0
zero-bit_and b = bit_and-bitwise 0 b

-- The lowest bit of `a & b`, and the rest.
pub bit_and-halves : (a b : ℕ) → bit_and a b ≡ bit_and (a / 2) (b / 2) * 2 + min (a % 2) (b % 2)
bit_and-halves zero b = omega (arith, zero-bit_and b, zero-bit_and (b / 2))
bit_and-halves (suc a) b = omega (
  arith,
  bit_and-bitwise (suc a) b,
  bit_and-bitwise (suc a / 2) (b / 2),
  min_digits_irrelevant a (suc a / 2) (suc a / 2) (b / 2) (omega arith) (omega arith),
)

-- `k` ones.
abbrev pub ones : ℕ → ℕ
ones zero = 0
ones (suc k) = ones k * 2 + 1

bit_and-zero_below : (n a : ℕ) → a ≤ n → bit_and a 0 ≡ 0
bit_and-zero_below zero zero h = zero-bit_and 0
bit_and-zero_below zero (suc a) h = absurd (omega arith)
bit_and-zero_below (suc n) zero h = zero-bit_and 0
bit_and-zero_below (suc n) (suc a) h =
    omega (arith, bit_and-halves (suc a) 0, bit_and-zero_below n (suc a / 2) (omega arith))

pub bit_and-zero : (a : ℕ) → bit_and a 0 ≡ 0
bit_and-zero a = bit_and-zero_below a a (omega arith)

-- `a & (2^k - 1)` is the remainder by `2 ^ k`.
pub bit_and-ones : (k a : ℕ) → bit_and a (ones k) ≡ a % 2 ^ k
bit_and-ones zero a = omega (arith, bit_and-zero a)
bit_and-ones (suc k) a =
    rw (bit_and-halves a (ones k * 2 + 1))
      (rw halved (rw (bit_and-ones k (a / 2)) (rw pow-suc (grind arith))))
  where
    halved : (ones k * 2 + 1) / 2 ≡ ones k
    halved = omega arith

double : (m k : ℕ) → m * 2 ^ suc k ≡ m * 2 ^ k * 2
double m k = rw (pow-suc 2 k) (sym (mul_assoc m (2 ^ k) 2))

half_double : (t : ℕ) → t * 2 / 2 ≡ t
half_double t = omega arith

div-two-pow : (a k : ℕ) → a / 2 ^ suc k ≡ a / 2 / 2 ^ k
div-two-pow a k = rw (pow-succ' 2 k) (sym (div-div-eq-div-mul a 2 (2 ^ k)))

-- A mask of `m` shifted up by `k` clears the `k` lowest bits.
pub bit_and-high : (k a m : ℕ) → bit_and a (m * 2 ^ k) ≡ bit_and (a / 2 ^ k) m * 2 ^ k
bit_and-high zero a m = simp (mul-one, div-one)
bit_and-high (suc k) a m = omega (
  arith,
  ap (λ (t : ℕ). bit_and a t) (double m k),
  ap (λ (t : ℕ). bit_and t m * 2 ^ suc k) (div-two-pow a k),
  bit_and-halves a (m * 2 ^ k * 2),
  ap (λ (t : ℕ). bit_and (a / 2) t) (half_double (m * 2 ^ k)),
  bit_and-high k (a / 2) m,
  double (bit_and (a / 2 / 2 ^ k) m) k,
)

-- A 32-bit network mask of 16 ones keeps the upper half.
pub bit_and-upper_half : (a : ℕ) → a < 4294967296 → bit_and a 0xFFFF0000 ≡ a / 65536 * 65536
bit_and-upper_half a h = omega (arith, bit_and-high 16 a 65535, bit_and-ones 16 (a / 65536))
