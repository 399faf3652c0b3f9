-- ===== src/Word/Bits.antt =====
-- One bit of a word, and what `|`, `&` and `!` do to it, at every width.
use Prim.Native.Nat.{digits, bitwise, bit_and-bitwise, bit_or-bitwise}
use native.Mathlib.Nat.{pow-suc, one-le-pow}
use helium_os.Prelude.{
  ℕ, zero, suc, ◌+◌, ◌-◌, ◌*◌, ◌/◌, ◌%◌, ◌^◌, ◌≤◌, ◌<◌, bit_and, bit_or, min, max, ◌≡◌, refl, Bool,
  false, ◌&&◌, ◌||◌, not, ◌==◌, arith,
}

-- Bit `k` of `w`.
unfoldable pub bit : ℕ → ℕ → Bool
bit w zero = w % 2 == 1
bit w (suc k) = bit (w / 2) k

-- `1 << k`
abbrev pub shl_one : ℕ → ℕ
shl_one k = 2 ^ k

-- `!w` on words of `n` bits
abbrev pub complement : ℕ → ℕ → ℕ
complement n w = 2 ^ n - 1 - w

module _ (z : ℕ → ℕ) (f : ℕ → ℕ → ℕ) where
  enough_digits : (n m a b : ℕ) → a ≤ n → a ≤ m → digits z f n a b ≡ digits z f m a b
  enough_digits n m zero b p q = elim n as (λ k. digits z f k 0 b ≡ digits z f m 0 b) [
    | zero ↦ elim m as (λ k. z b ≡ digits z f k 0 b) [ zero ↦ refl | suc k ↦ refl ]
    | suc i ↦ elim m as (λ k. z b ≡ digits z f k 0 b) [ zero ↦ refl | suc k ↦ refl ]
  ]
  enough_digits zero m (suc a) b p q = absurd (omega arith)
  enough_digits (suc n) zero (suc a) b p q = absurd (omega arith)
  enough_digits (suc n) (suc m) (suc a) b p q =
      rw (enough_digits n m (suc a / 2) (b / 2) (omega arith) (omega arith))

  lowest_digit :
      (v w : ℕ)
      → bitwise z f (suc v) w ≡ bitwise z f (suc v / 2) (w / 2) * 2 + f (suc v % 2) (w % 2)
  lowest_digit v w =
      rw (enough_digits v (suc v / 2) (suc v / 2) (w / 2) (omega arith) (omega arith))

pub or_digit : (a b : ℕ) → bit_or a b ≡ bit_or (a / 2) (b / 2) * 2 + max (a % 2) (b % 2)
or_digit zero b = rw (bit_or-bitwise 0 b, bit_or-bitwise (0 / 2) (b / 2)) (omega arith)
or_digit (suc a) b =
    rw (bit_or-bitwise (suc a) b, bit_or-bitwise (suc a / 2) (b / 2))
      (lowest_digit (λ y. y) max a b)

pub and_digit : (a b : ℕ) → bit_and a b ≡ bit_and (a / 2) (b / 2) * 2 + min (a % 2) (b % 2)
and_digit zero b = rw (bit_and-bitwise 0 b, bit_and-bitwise (0 / 2) (b / 2)) (omega arith)
and_digit (suc a) b =
    rw (bit_and-bitwise (suc a) b, bit_and-bitwise (suc a / 2) (b / 2))
      (lowest_digit (λ y. 0) min a b)

half_or : (a b : ℕ) → bit_or a b / 2 ≡ bit_or (a / 2) (b / 2)
half_or a b = omega (arith, or_digit a b)

half_and : (a b : ℕ) → bit_and a b / 2 ≡ bit_and (a / 2) (b / 2)
half_and a b = omega (arith, and_digit a b)

pub bit-or : (k a b : ℕ) → bit (bit_or a b) k ≡ (bit a k || bit b k)
unfolding bit
bit-or zero a b = ground (arith, or_digit a b)
bit-or (suc k) a b = rw (half_or a b) (bit-or k (a / 2) (b / 2))

pub bit-and : (k a b : ℕ) → bit (bit_and a b) k ≡ (bit a k && bit b k)
unfolding bit
bit-and zero a b = ground (arith, and_digit a b)
bit-and (suc k) a b = rw (half_and a b) (bit-and k (a / 2) (b / 2))

pub bit-zero : (k : ℕ) → bit 0 k ≡ false
unfolding bit
bit-zero zero = refl
bit-zero (suc k) = bit-zero k

half_pow : (k : ℕ) → 2 ^ suc k / 2 ≡ 2 ^ k
half_pow k = omega (arith, pow-suc 2 k)

pub bit-shl_one : (k j : ℕ) → bit (shl_one k) j ≡ (k == j)
unfolding bit
bit-shl_one zero zero = refl
bit-shl_one zero (suc j) = rw (bit-zero j) (ground arith)
bit-shl_one (suc k) zero = ground (arith, pow-suc 2 k)
bit-shl_one (suc k) (suc j) = rw (half_pow k, bit-shl_one k j) (ground arith)

half_complement : (n w : ℕ) → w < 2 ^ suc n → complement (suc n) w / 2 ≡ complement n (w / 2)
half_complement n w h = omega (arith, pow-suc 2 n)

pub bit-complement : (n j w : ℕ) → w < 2 ^ n → j < n → bit (complement n w) j ≡ not (bit w j)
unfolding bit
bit-complement zero j w h p = absurd (omega arith)
bit-complement (suc n) zero w h p = ground (arith, pow-suc 2 n, one-le-pow n 2)
bit-complement (suc n) (suc j) w h p =
    rw (half_complement n w h)
      (bit-complement n j (w / 2) (omega (arith, pow-suc 2 n)) (omega arith))

pub or-lt : (n a b : ℕ) → a < 2 ^ n → b < 2 ^ n → bit_or a b < 2 ^ n
or-lt zero a b p q =
    let e : a ≡ 0 = omega arith in let e' : b ≡ 0 = omega arith in rw (e, e') (omega arith)
or-lt (suc n) a b p q = omega (
  arith,
  or_digit a b,
  pow-suc 2 n,
  or-lt n (a / 2) (b / 2) (omega (arith, pow-suc 2 n)) (omega (arith, pow-suc 2 n)),
)

and_zero : (n a : ℕ) → a ≤ n → bit_and a 0 ≡ 0
and_zero n zero p = refl
and_zero zero (suc a) p = absurd (omega arith)
and_zero (suc n) (suc a) p =
    omega (arith, and_digit (suc a) 0, and_zero n (suc a / 2) (omega arith))

pub and-lt : (n a b : ℕ) → b < 2 ^ n → bit_and a b < 2 ^ n
and-lt zero a b q = let e : b ≡ 0 = omega arith in rw (e, and_zero a a (omega arith)) (omega arith)
and-lt (suc n) a b q =
    omega (arith, and_digit a b, pow-suc 2 n, and-lt n (a / 2) (b / 2) (omega (arith, pow-suc 2 n)))

-- Words with the same bits are equal.
pub word_ext : (n a b : ℕ) → a < 2 ^ n → b < 2 ^ n → ((j : ℕ) → j < n → bit a j ≡ bit b j) → a ≡ b
unfolding bit
word_ext zero a b p q h = omega arith
word_ext (suc n) a b p q h =
    let rest : a / 2 ≡ b / 2 =
      word_ext n (a / 2) (b / 2) (omega (arith, pow-suc 2 n)) (omega (arith, pow-suc 2 n))
        (λ j lt. h (suc j) (omega arith)) in
    let low : (a % 2 == 1) ≡ (b % 2 == 1) = h 0 (omega arith) in ground arith
