-- ===== src/Protocol/Bytes.antt =====
-- The numbers of a header field and its bytes in network order.
use xsan.Base.{
  ℕ, zero, suc, Bool, true, ltb, ◌&&◌, ◌+◌, ◌*◌, ◌/◌, ◌%◌, ◌^◌, ◌<◌, ◌≡◌, List, [], ◌∷◌, get_or,
  arith,
}
use xsan.Protocol.{byte_of, bytes_16, bytes_32, read_32}

abbrev pub AllBytes : List ℕ → Type 0
AllBytes b = (i : ℕ) → get_or b i 0 < 256

-- The test of a list of bytes.
abbrev pub all_bytes : List ℕ → Bool
all_bytes [] = true
all_bytes (d ∷ ds) = ltb d 256 && all_bytes ds

pub all_bytes-AllBytes : (b : List ℕ) → all_bytes b ≡ true → AllBytes b
all_bytes-AllBytes [] h i = omega arith
all_bytes-AllBytes (d ∷ ds) h zero = ground arith
all_bytes-AllBytes (d ∷ ds) h (suc i) = all_bytes-AllBytes ds (ground arith) i

pub join_16 : (n : ℕ) → n < 2 ^ 16 → byte_of n 8 * 256 + byte_of n 0 ≡ n
join_16 n h = omega arith

pub join_32 :
    (n : ℕ)
    → n < 2 ^ 32
    → (byte_of n 24 * 256 + byte_of n 16) * 2 ^ 16 + (byte_of n 8 * 256 + byte_of n 0) ≡ n
join_32 n h = omega arith

pub join_64 : (n : ℕ) → n < 2 ^ 64 → n / 2 ^ 32 * 2 ^ 32 + n % 2 ^ 32 ≡ n
join_64 n h = omega arith

-- The bytes of a number that was put together from bytes.
pub split_16 : (a b : ℕ) → a < 256 → b < 256 → bytes_16 (a * 256 + b) ≡ a ∷ b ∷ []
split_16 a b ha hb = cc (high, low)
  where
    high : byte_of (a * 256 + b) 8 ≡ a
    high = omega arith

    low : byte_of (a * 256 + b) 0 ≡ b
    low = omega arith

pub split_32 :
    (a b c d : ℕ)
    → a < 256
    → b < 256
    → c < 256
    → d < 256
    → bytes_32 ((a * 256 + b) * 2 ^ 16 + (c * 256 + d)) ≡ a ∷ b ∷ c ∷ d ∷ []
split_32 a b c d ha hb hc hd = cc (first, second, third, fourth)
  where
    first : byte_of ((a * 256 + b) * 2 ^ 16 + (c * 256 + d)) 24 ≡ a
    first = omega arith

    second : byte_of ((a * 256 + b) * 2 ^ 16 + (c * 256 + d)) 16 ≡ b
    second = omega arith

    third : byte_of ((a * 256 + b) * 2 ^ 16 + (c * 256 + d)) 8 ≡ c
    third = omega arith

    fourth : byte_of ((a * 256 + b) * 2 ^ 16 + (c * 256 + d)) 0 ≡ d
    fourth = omega arith

pub read_32-lt : (b : List ℕ) (i : ℕ) → AllBytes b → read_32 b i < 2 ^ 32
read_32-lt b i h = omega (arith, h i, h (i + 1), h (i + 2), h (i + 2 + 1))
