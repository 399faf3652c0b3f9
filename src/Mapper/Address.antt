-- ===== src/Mapper/Address.antt =====
-- The indices that `map` of kernel/src/mem/virt/mapper.rs takes from an address.
use helium_os.Prelude.{
  ℕ, zero, suc, ◌+◌, ◌*◌, ◌/◌, ◌%◌, ◌≤◌, ◌<◌, ◌≡◌, ◌≢◌, ap, List, [], ◌∷◌, arith,
}
use helium_os.Platform.{Align, Paging, Indices, Flags}
use helium_os.Mapper.{page_flags}
use helium_os.Mapper.Page.{path_of}

-- The number of a page among the 2^36 of the address space.
abbrev pub page_number : ℕ → ℕ
page_number a = a / 0x1000 % 0x1000000000

digits_eq :
    (u v : ℕ)
    → u % 512 ≡ v % 512
    → u / 512 % 512 ≡ v / 512 % 512
    → u / 0x40000 % 512 ≡ v / 0x40000 % 512
    → u / 0x8000000 % 512 ≡ v / 0x8000000 % 512
    → u % 0x1000000000 ≡ v % 0x1000000000
digits_eq u v a b c d = omega (arith, a, b, c, d)

module _ (x : Align) (y : Paging) (z : Indices) where
  pub path_of-number : (a b : ℕ) → path_of x y z a ≡ path_of x y z b → page_number a ≡ page_number b
  path_of-number a b e =
      digits_eq (a / 0x1000) (b / 0x1000) (omega (arith, at 3, z.p1_index_lem a, z.p1_index_lem b))
        (omega (arith, at 2, z.p2_index_lem a, z.p2_index_lem b))
        (omega (arith, at 1, z.p3_index_lem a, z.p3_index_lem b))
        (omega (arith, at 0, z.p4_index_lem a, z.p4_index_lem b))
    where
      nth : List ℕ → ℕ → ℕ
      nth [] i = 0
      nth (k ∷ ks) zero = k
      nth (k ∷ ks) (suc i) = nth ks i

      at : (i : ℕ) → nth (path_of x y z a) i ≡ nth (path_of x y z b) i
      at i = ap (λ q. nth q i) e

  pub path_of_later :
      (a k : ℕ) → 0 < k → k < 0x1000000000 → path_of x y z (a + k * 0x1000) ≢ path_of x y z a
  path_of_later a k pos small e = omega (arith, path_of-number (a + k * 0x1000) a e, pos, small)

-- The flags of a later page do not depend on the pages before it.
pub page_flags_later :
    (p q : ℕ) (fl : Flags) → p ≤ q → page_flags q (page_flags p fl) ≡ page_flags q fl
unfolding page_flags
page_flags_later p q fl le = ground (arith, le)
