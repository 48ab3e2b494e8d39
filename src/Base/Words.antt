-- ===== src/Base/Words.antt =====
-- Machine words: a value is a plain number, and a cast is a remainder.
use Prim.Native.Nat.{ℕ, ◌+◌, ◌*◌, ◌/◌, ◌%◌, ◌<◌}
use mathlib.Core.Path.{◌≡◌}
use native.Mathlib.Omega.{arith}

abbrev pub u8 : ℕ → ℕ
u8 x = x % 256

abbrev pub u16 : ℕ → ℕ
u16 x = x % 65536

abbrev pub u32 : ℕ → ℕ
u32 x = x % 4294967296

-- `__builtin_bswap16` and `__builtin_bswap32`.
unfoldable pub bswap16 : ℕ → ℕ
bswap16 x = x % 256 * 256 + x / 256 % 256

unfoldable pub bswap32 : ℕ → ℕ
bswap32 x = x % 256 * 16777216 + x / 256 % 256 * 65536 + x / 65536 % 256 * 256 + x / 16777216 % 256

pub bswap16-lt : (x : ℕ) → bswap16 x < 65536
unfolding bswap16
bswap16-lt x = omega arith

pub bswap32-lt : (x : ℕ) → bswap32 x < 4294967296
unfolding bswap32
bswap32-lt x = omega arith

pub bswap16-bswap16 : (x : ℕ) → x < 65536 → bswap16 (bswap16 x) ≡ x
unfolding bswap16
bswap16-bswap16 x h = omega arith

pub bswap32-bswap32 : (x : ℕ) → x < 4294967296 → bswap32 (bswap32 x) ≡ x
unfolding bswap32
bswap32-bswap32 x h = omega arith

-- Big-endian words, as the code reads and writes them with explicit shifts.
abbrev pub be16 : ℕ → ℕ → ℕ
be16 hi lo = hi * 256 + lo

abbrev pub be32 : ℕ → ℕ → ℕ → ℕ → ℕ
be32 a b c d = a * 16777216 + b * 65536 + c * 256 + d
