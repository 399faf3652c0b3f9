-- ===== src/Phys/Init/Bitmap.antt =====
-- The bitmap that `phys::init` writes for a segment: which of its pages start out free.
use helium_os.Prelude.{
  ℕ, zero, suc, ◌+◌, ◌-◌, ◌*◌, ◌/◌, ◌%◌, ◌^◌, ◌<◌, ◌≡◌, refl, ap, ◌∙◌, Bool, true, false, ◌&&◌, leb,
  ◌==◌, if◌then◌else◌, length, replicate, arith,
}
use helium_os.Platform.{Align, word_up_bounds}
use helium_os.Word.Bits.{bit, bit-zero}
use helium_os.Phys.{bitmap_size, bitmap_u64len}
use helium_os.Phys.Valid.{word_at, bitmap_bit, IsWords, word_at-set, set-IsWords, length-set}
use helium_os.Phys.Init.{ones_from, fresh_bitmap}

-- Two tests that agree on all pairs below 64.
holds_below : (ℕ → Bool) → ℕ → Bool
holds_below p zero = true
holds_below p (suc n) = holds_below p n && p n

holds_below-at : (p : ℕ → Bool) (n i : ℕ) → i < n → holds_below p n ≡ true → p i ≡ true
unfolding holds_below
holds_below-at p zero i lt h = absurd (omega arith)
holds_below-at p (suc n) i lt h = ground (arith, holds_below-at p n i)

same : Bool → Bool → Bool
same true b = b
same false true = false
same false false = true

same_eq : (a b : Bool) → same a b ≡ true → a ≡ b
unfolding same
same_eq a b h = ground arith

ones_table : holds_below (λ k. holds_below (λ j. same (bit (ones_from k) j) (leb k j)) 64) 64 ≡ true
unfolding holds_below same bit ones_from
ones_table = refl

-- Bit `j` of `u64::MAX << k`.
pub bit-ones_from : (k j : ℕ) → k < 64 → j < 64 → bit (ones_from k) j ≡ leb k j
bit-ones_from k j hk hj =
    same_eq _ _ (holds_below-at _ 64 j hj (holds_below-at _ 64 k hk ones_table))

pub ones_from-lt : (k : ℕ) → ones_from k < 2 ^ 64
unfolding ones_from
ones_from-lt k = omega arith

length-replicate : (n w : ℕ) → length (replicate n w) ≡ n
length-replicate zero w = refl
length-replicate (suc n) w = ap suc (length-replicate n w)

word_at-replicate : (n i : ℕ) → i < n → word_at (replicate n 0) i ≡ 0
word_at-replicate zero i h = absurd (omega arith)
word_at-replicate (suc n) zero h = refl
word_at-replicate (suc n) (suc i) h = word_at-replicate n i (omega arith)

replicate-IsWords : (n : ℕ) → IsWords (replicate n 0)
replicate-IsWords zero = tt
replicate-IsWords (suc n) = (omega arith, replicate-IsWords n)

-- The first page of a segment that starts out as used. With a whole number of words the last word
-- is filled with ones, although all its pages exist.
abbrev pub first_reserved : ℕ → ℕ
first_reserved pages = if pages % 64 == 0 then pages - 64 else pages

pub bit-fresh_bitmap :
    (len pages q : ℕ)
    → len ≡ (pages + 63) / 64
    → 0 < len
    → q < 64 * len
    → bitmap_bit (fresh_bitmap len pages) q ≡ leb (first_reserved pages) q
unfolding bitmap_bit fresh_bitmap
bit-fresh_bitmap len pages q e h lt =
    rw
      (word_at-set (replicate len 0) (len - 1) (q / 64) (ones_from (pages % 64))
        (omega (arith, length-replicate len 0)))
      (ground (
        arith,
        bit-ones_from (pages % 64) (q % 64) (omega arith) (omega arith),
        word_at-replicate len (q / 64) (omega arith),
        bit-zero (q % 64),
      ))

-- One bit for every page, in whole words.
pub u64len_lem : (x : Align) (size : ℕ) → bitmap_u64len x size ≡ (size / 0x1000 + 63) / 64
unfolding bitmap_u64len bitmap_size
u64len_lem x size = omega (arith, word_up_bounds x (size / 0x1000))

pub length-fresh_bitmap : (len pages : ℕ) → length (fresh_bitmap len pages) ≡ len
unfolding fresh_bitmap
length-fresh_bitmap len pages =
    length-set (replicate len 0) (len - 1) (ones_from (pages % 64)) ∙ length-replicate len 0

pub fresh_bitmap-IsWords : (len pages : ℕ) → IsWords (fresh_bitmap len pages)
unfolding fresh_bitmap
fresh_bitmap-IsWords len pages =
    set-IsWords (replicate len 0) (len - 1) (ones_from (pages % 64)) (ones_from-lt (pages % 64))
      (replicate-IsWords len)
