-- ===== src/Tar/Octal.antt =====
-- The size of an entry as text.
use native.Mathlib.Nat.{pow-suc, div-div-eq-div-mul, div-le_self}
use helium_os.Prelude.{
  ℕ, zero, suc, ◌+◌, ◌-◌, ◌*◌, ◌/◌, ◌%◌, ◌^◌, ◌<◌, ◌≡◌, refl, ap, ◌∙◌, sym, true, false, ◌&&◌, some,
  List, [], ◌∷◌, ◌++◌, ltb, leb, ◌==◌, arith, ok, ◌>>=◌, unwrap,
}
use helium_os.Tar.{TarHeader, from_bytes_with_nul, octal_digits, from_str_radix, size}

-- A number in `n` octal digits, the highest first.
abbrev pub octal : ℕ → ℕ → List ℕ
octal zero v = []
octal (suc n) v = (48 + (v / 8 ^ n) % 8) ∷ octal n v

-- The field of a size: eleven digits and a zero.
abbrev pub size_field : ℕ → List ℕ
size_field v = octal 11 v ++ (0 ∷ [])

from_bytes_with_nul-octal :
    (n v : ℕ) → from_bytes_with_nul (octal n v ++ (0 ∷ [])) ≡ some (octal n v)
unfolding from_bytes_with_nul
from_bytes_with_nul-octal zero v = refl
from_bytes_with_nul-octal (suc zero) v =
    let digit : (48 + (v / 8 ^ 0) % 8 == 0) ≡ false = ground arith in rw digit refl
from_bytes_with_nul-octal (suc (suc n)) v =
    let digit : (48 + (v / 8 ^ suc n) % 8 == 0) ≡ false = ground arith in
    rw digit (rw (from_bytes_with_nul-octal (suc n) v) refl)

octal_digits-step :
    (q : ℕ) (ds : List ℕ)
    → q < 2 ^ 64
    → octal_digits (q / 8) ((48 + q % 8) ∷ ds) ≡ octal_digits q ds
unfolding octal_digits
octal_digits-step q ds fits =
    let back : (q / 8) * 8 + (48 + q % 8 - 48) ≡ q = omega arith in
    let digit : (leb 48 (48 + q % 8)
          && ltb (48 + q % 8) 56
          && ltb ((q / 8) * 8 + (48 + q % 8 - 48)) 0x10000000000000000)
        ≡ true =
      ground (arith, back, fits) in
    rw digit (ap (λ acc. octal_digits acc ds) back)

octal_digits-octal : (n v : ℕ) → v < 2 ^ 64 → octal_digits (v / 8 ^ n) (octal n v) ≡ some v
unfolding octal_digits
octal_digits-octal zero v h = let one : v / 1 ≡ v = omega arith in ap some one
octal_digits-octal (suc n) v h =
    let high : v / 8 ^ suc n ≡ v / 8 ^ n / 8 =
      ap (λ k. v / k) (pow-suc 8 n) ∙ sym (div-div-eq-div-mul v (8 ^ n) 8) in
    let fits : v / 8 ^ n < 2 ^ 64 = omega (arith, h, div-le_self v (8 ^ n)) in
    ap (λ acc. octal_digits acc (octal (suc n) v)) high
    ∙ (octal_digits-step (v / 8 ^ n) (octal n v) fits ∙ octal_digits-octal n v h)

from_str_radix-octal :
    (n v : ℕ) → from_str_radix (octal (suc (suc n)) v) ≡ octal_digits 0 (octal (suc (suc n)) v)
unfolding from_str_radix
from_str_radix-octal n v =
    let digit : (48 + (v / 8 ^ suc n) % 8 == 43) ≡ false = ground arith in rw digit refl

-- A size below 8 GiB, written as eleven octal digits and a zero, is read back.
pub size-size_field : (h : TarHeader) (v : ℕ) → v < 8 ^ 11 → h.size ≡ size_field v → size h ≡ ok v
unfolding size
size-size_field h v lt e =
    let high : v / 8 ^ 11 ≡ 0 = omega (arith, lt) in
    let digits : from_str_radix (octal 11 v) ≡ some v =
      from_str_radix-octal 9 v
      ∙ (ap (λ acc. octal_digits acc (octal 11 v)) (sym high)
          ∙ octal_digits-octal 11 v (omega (arith, lt))) in
    ap (λ bs. unwrap (from_bytes_with_nul bs) >>= (λ ds. unwrap (from_str_radix ds))) e
    ∙ (ap (λ o. unwrap o >>= (λ ds. unwrap (from_str_radix ds))) (from_bytes_with_nul-octal 11 v)
        ∙ ap unwrap digits)
