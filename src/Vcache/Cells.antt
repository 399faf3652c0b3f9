-- ===== src/Vcache/Cells.antt =====
-- Writes to one cell of an array, and the tests that find the cell.
use helium_os.Prelude.{ℕ, ◌≡◌, ◌≢◌, refl, Bool, true, false, ◌&&◌, ◌==◌, if◌then◌else◌, arith}
use helium_os.Vcache.{update, update₂}

pub if_hit {ℓ} : {A : Type ℓ} (b : Bool) (a c : A) → b ≡ true → (if b then a else c) ≡ a
if_hit b a c e = rw e refl

pub if_miss {ℓ} : {A : Type ℓ} (b : Bool) (a c : A) → b ≡ false → (if b then a else c) ≡ c
if_miss b a c e = rw e refl

pub eq_test : (m n : ℕ) → m ≡ n → (m == n) ≡ true
eq_test m n h = ground (arith, h)

pub ne_test : (m n : ℕ) → m ≢ n → (m == n) ≡ false
ne_test m n h = ground (arith, h)

pub both_tests : (i j : ℕ) → ((i == i) && (j == j)) ≡ true
both_tests i j = ground arith

pub first_test : {i k : ℕ} (j l : ℕ) → i ≢ k → ((i == k) && (j == l)) ≡ false
first_test {i} {k} j l h = rw (ne_test i k h) refl

pub second_test : (i : ℕ) {j l : ℕ} → l ≢ j → ((i == i) && (j == l)) ≡ false
second_test i {j} {l} h = ground (arith, h)

pub both_eq : (i j k l : ℕ) → ((i == k) && (j == l)) ≡ true → (i ≡ k) × (j ≡ l)
both_eq i j k l h = ground (arith, h)

module _ {ℓ} {A : Type ℓ} where
  pub update_hit : (f : ℕ → A) (i : ℕ) (a : A) (j : ℕ) → i ≡ j → update f i a j ≡ a
  update_hit f i a j e = if_hit (i == j) a (f j) (eq_test i j e)

  pub update_miss : (f : ℕ → A) (i : ℕ) (a : A) (j : ℕ) → i ≢ j → update f i a j ≡ f j
  update_miss f i a j e = if_miss (i == j) a (f j) (ne_test i j e)

  pub update₂_hit :
      (f : ℕ → ℕ → A) (i j : ℕ) (a : A) (k l : ℕ)
      → ((i == k) && (j == l)) ≡ true
      → update₂ f i j a k l ≡ a
  update₂_hit f i j a k l e = if_hit ((i == k) && (j == l)) a (f k l) e

  pub update₂_miss :
      (f : ℕ → ℕ → A) (i j : ℕ) (a : A) (k l : ℕ)
      → ((i == k) && (j == l)) ≡ false
      → update₂ f i j a k l ≡ f k l
  update₂_miss f i j a k l e = if_miss ((i == k) && (j == l)) a (f k l) e
