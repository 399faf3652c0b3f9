-- ===== src/Vcache/Count.antt =====
-- How many indices of a range pass a test, and how one changed index shows in the count.
use native.Mathlib.Decide.{ℕ_discrete}
use helium_os.Prelude.{
  ℕ, zero, suc, ◌+◌, ◌≤◌, ◌<◌, ◌≡◌, ◌≢◌, Bool, true, false, if◌then◌else◌, arith, refl, ◌∙◌, ap,
}

-- The indices in `[i, i + n)` that pass.
unfoldable pub count : (ℕ → Bool) → ℕ → ℕ → ℕ
count p zero i = 0
count p (suc n) i = (if p i then 1 else 0) + count p n (i + 1)

pub count_le : (p : ℕ → Bool) (n i : ℕ) → count p n i ≤ n
unfolding count
count_le p zero i = omega arith
count_le p (suc n) i = ground (arith, count_le p n (i + 1))

-- A test that agrees on the range has the same count.
pub count_same :
    (p q : ℕ → Bool) (n i : ℕ)
    → ((j : ℕ) → i ≤ j → j < i + n → p j ≡ q j)
    → count p n i ≡ count q n i
unfolding count
count_same p q zero i h = refl
count_same p q (suc n) i h = rw (
  h i (omega arith) (omega arith),
  count_same p q n (i + 1) (λ j a b. h j (omega arith) (omega arith)),
)

-- One index of the range that stops to pass takes one off.
pub count_drop :
    (p q : ℕ → Bool) (n i k : ℕ)
    → i ≤ k
    → k < i + n
    → p k ≡ true
    → q k ≡ false
    → ((j : ℕ) → j ≢ k → p j ≡ q j)
    → count p n i ≡ count q n i + 1
unfolding count
count_drop p q zero i k a b pk qk h = absurd (omega arith)
count_drop p q (suc n) i k a b pk qk h = elim (ℕ_discrete i k) [
  | yes e ↦
      let pi : p i ≡ true = rw e pk in
      let qi : q i ≡ false = rw e qk in
      rw (pi, qi, count_same p q n (i + 1) (λ j c d. h j (omega (arith, e)))) (omega arith)
  | no ne ↦
      rw (h i ne, count_drop p q n (i + 1) k (omega arith) (omega arith) pk qk h) (omega arith)
]

-- An index of the range that passes is found in the count, and the other way round.
pub count_zero : (p : ℕ → Bool) (n i j : ℕ) → count p n i ≡ 0 → i ≤ j → j < i + n → p j ≡ false
unfolding count
count_zero p zero i j e a b = absurd (omega arith)
count_zero p (suc n) i j e a b = elim (ℕ_discrete i j) [
  | yes same ↦ rw (← same) (ground arith)
  | no ne ↦ count_zero p n (i + 1) j (omega arith) (omega arith) (omega arith)
]

-- A range in two parts.
pub count_split : (p : ℕ → Bool) (m n i : ℕ) → count p (m + n) i ≡ count p m i + count p n (i + m)
unfolding count
count_split p zero n i =
    let e : zero + n ≡ n = omega arith in
    let e' : i + zero ≡ i = omega arith in rw (e, e') (omega arith)
count_split p (suc m) n i =
    let e : suc m + n ≡ suc (m + n) = omega arith in
    let e' : i + suc m ≡ i + 1 + m = omega arith in
    rw (e, e') (omega (arith, count_split p m n (i + 1)))

-- One index more.
pub count_snoc : (p : ℕ → Bool) (n : ℕ) → count p (suc n) 0 ≡ count p n 0 + (if p n then 1 else 0)
unfolding count
count_snoc p n =
    let e : 0 + n ≡ n = omega arith in
    let e' : suc n ≡ n + 1 = omega arith in
    let last : count p 1 (0 + n) ≡ (if p n then 1 else 0) = ap (count p 1) e ∙ omega arith in
    ap (λ m. count p m 0) e' ∙ (count_split p n 1 0 ∙ ap (λ k. count p n 0 + k) last)
