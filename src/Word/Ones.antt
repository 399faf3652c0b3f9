-- ===== src/Word/Ones.antt =====
-- `u64::trailing_ones`, and the words after one bit is set or cleared.
use native.Mathlib.Nat.{pow-suc, one-le-pow}
use helium_os.Prelude.{
  ℕ, zero, suc, ◌-◌, ◌/◌, ◌%◌, ◌^◌, ◌<◌, bit_and, bit_or, ◌≡◌, ◌≢◌, true, false, ◌&&◌, ◌||◌, not,
  ◌==◌, if◌then◌else◌, arith,
}
use helium_os.Word.Bits.{
  bit, shl_one, complement, bit-or, bit-and, bit-shl_one, bit-complement, or-lt, and-lt, word_ext,
}

-- `u64::MAX`
abbrev pub word_max : ℕ
word_max = 2 ^ 64 - 1

-- The number of ones below the lowest zero of a word of `n` bits.
unfoldable pub trailing_ones : ℕ → ℕ → ℕ
trailing_ones zero w = 0
trailing_ones (suc n) w = let rest = trailing_ones n (w / 2) in if w % 2 == 1 then suc rest else 0

-- `w |= 1 << k`
unfoldable pub set_bit : ℕ → ℕ → ℕ
set_bit w k = bit_or w (shl_one k)

-- `w &= !(1 << k)`
unfoldable pub clear_bit : ℕ → ℕ → ℕ
clear_bit w k = bit_and w (complement 64 (shl_one k))

-- A word that is not all ones has a zero among its bits.
pub trailing_ones-lt : (n w : ℕ) → w < 2 ^ n → w ≢ 2 ^ n - 1 → trailing_ones n w < n
unfolding trailing_ones
trailing_ones-lt zero w h ne = absurd (ne (omega arith))
trailing_ones-lt (suc n) w h ne =
    ground (arith, pow-suc 2 n, one-le-pow n 2, trailing_ones-lt n (w / 2))

-- It is the place that `trailing_ones` names.
pub bit-trailing_ones : (n w : ℕ) → trailing_ones n w < n → bit w (trailing_ones n w) ≡ false
unfolding trailing_ones bit
bit-trailing_ones zero w h = absurd (omega arith)
bit-trailing_ones (suc n) w h = ground (arith, bit-trailing_ones n (w / 2))

-- All bits below it are ones.
pub bit_below_trailing_ones : (n w j : ℕ) → j < trailing_ones n w → bit w j ≡ true
unfolding trailing_ones bit
bit_below_trailing_ones zero w j h = absurd (omega arith)
bit_below_trailing_ones (suc n) w zero h = ground arith
bit_below_trailing_ones (suc n) w (suc j) h = ground (arith, bit_below_trailing_ones n (w / 2) j)

pow_lt : (n k : ℕ) → k < n → 2 ^ k < 2 ^ n
pow_lt zero k h = absurd (omega arith)
pow_lt (suc n) zero h = omega (arith, pow-suc 2 n, one-le-pow n 2)
pow_lt (suc n) (suc k) h = omega (arith, pow-suc 2 n, pow-suc 2 k, pow_lt n k (omega arith))

pub bit-set_bit : (w k j : ℕ) → bit (set_bit w k) j ≡ (k == j || bit w j)
unfolding set_bit
bit-set_bit w k j = rw (bit-or j w (shl_one k), bit-shl_one k j) (ground arith)

pub bit-clear_bit :
    (w k j : ℕ) → k < 64 → j < 64 → bit (clear_bit w k) j ≡ (not (k == j) && bit w j)
unfolding clear_bit
bit-clear_bit w k j hk hj =
    rw
      (
        bit-and j w (complement 64 (shl_one k)),
        bit-complement 64 j (shl_one k) (pow_lt 64 k hk) hj,
        bit-shl_one k j,
      )
      (ground arith)

pub set_bit-lt : (w k : ℕ) → w < 2 ^ 64 → k < 64 → set_bit w k < 2 ^ 64
unfolding set_bit
set_bit-lt w k h hk = or-lt 64 w (shl_one k) h (pow_lt 64 k hk)

pub clear_bit-lt : (w k : ℕ) → clear_bit w k < 2 ^ 64
unfolding clear_bit
clear_bit-lt w k = and-lt 64 w (complement 64 (shl_one k)) (omega arith)

-- Clearing a bit that was set just before gives the word back.
pub clear_bit-set_bit :
    (w k : ℕ) → w < 2 ^ 64 → k < 64 → bit w k ≡ false → clear_bit (set_bit w k) k ≡ w
clear_bit-set_bit w k h hk free =
    word_ext 64 (clear_bit (set_bit w k) k) w (clear_bit-lt (set_bit w k) k) h same
  where
    same : (j : ℕ) → j < 64 → bit (clear_bit (set_bit w k) k) j ≡ bit w j
    same j hj =
        rw (bit-clear_bit (set_bit w k) k j hk hj, bit-set_bit w k j)
          (ground (arith, free, subst_bit j))
      where
        subst_bit : (j : ℕ) → k ≡ j → bit w j ≡ false
        subst_bit j e = rw (← e) free

all_ones : (n j : ℕ) → j < n → bit (2 ^ n - 1) j ≡ true
unfolding bit
all_ones zero j h = absurd (omega arith)
all_ones (suc n) zero h = ground (arith, pow-suc 2 n, one-le-pow n 2)
all_ones (suc n) (suc j) h = rw (half_ones n) (all_ones n j (omega arith))
  where
    half_ones : (n : ℕ) → (2 ^ suc n - 1) / 2 ≡ 2 ^ n - 1
    half_ones n = omega (arith, pow-suc 2 n, one-le-pow n 2)

pub bit-word_max : (j : ℕ) → j < 64 → bit word_max j ≡ true
bit-word_max j h = all_ones 64 j h
