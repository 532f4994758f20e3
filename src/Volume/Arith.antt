-- ===== src/Volume/Arith.antt =====
-- Division with a remainder, as the mapping of blocks needs it.
use native.Mathlib.Nat.{mul-div_left, mul_assoc}
use xsan.Base.{ℕ, ◌+◌, ◌*◌, ◌/◌, ◌%◌, ◌≤◌, ◌<◌, ◌≡◌, ap, sym, ◌∙◌, arith}

-- A whole block before the last division mark ends within the number divided.
pub block_end : (q n m : ℕ) → q < n / m → 0 < m → q * m + m ≤ n
block_end q n m h p = grind arith

pub block_before : (x n s : ℕ) → x < n * s → 0 < s → x / s < n
block_before x n s h p = grind arith

pub multiple : (m s : ℕ) → 0 < s → m % s ≡ 0 → m / s * s ≡ m
multiple m s p e = grind arith

pub exact_quotient : (k m s : ℕ) → 0 < s → m % s ≡ 0 → k * m / s * s ≡ k * m
exact_quotient k m s p e = rw whole (ap (λ t. t * s) (mul-div_left (k * (m / s)) p))
  where
    whole : k * m ≡ k * (m / s) * s
    whole = ap (λ t. k * t) (sym (multiple m s p e)) ∙ sym (mul_assoc k (m / s) s)

-- The byte after a block that starts `x` bytes into an extent of `n` blocks of `s` bytes.
pub byte_end : (b n s x m : ℕ) → x + m ≤ n * s → b * s + x + m ≤ (b + n) * s
byte_end b n s x m h = grind arith
