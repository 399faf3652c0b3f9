-- ===== src/Vcache/Valid.antt =====
-- The invariant of the cache: the two counts of each table are those of its entries.
use mathlib.Core.Bool.{false≢true}
use helium_os.Prelude.{ℕ, ◌<◌, ◌≡◌, Bool, true, false, not, ◌==◌, inl, inr, sym, ◌∙◌, Bool-cases}
use helium_os.Platform.{Paging}
use helium_os.Vcache.{VCache, is_present, p2page_count}
use helium_os.Vcache.Count.{count}

module _ (x : Paging) where
  -- The entry is free: it is not present.
  abbrev pub is_absent : VCache x → ℕ → ℕ → Bool
  is_absent v t j = not (is_present x v t j)

  -- The entry is lazy: it was unmapped, and is still present.
  abbrev pub is_lazy : VCache x → ℕ → ℕ → Bool
  is_lazy v t j = not (v.p1_age t j == 0)

  -- The four tables are mapped; each table's counts say how many of its entries are free and how
  -- many are lazy; a lazy entry is present.
  pub record IsValid (v : VCache x) : Type 0 where
    pub tables : v.p1_len ≡ p2page_count
    pub free_count : (t : ℕ) → t < p2page_count → v.p2_freecount t ≡ count (is_absent v t) 512 0
    pub lazy_count : (t : ℕ) → t < p2page_count → v.p2_lazycount t ≡ count (is_lazy v t) 512 0
    pub lazy_present :
        (t j : ℕ) → t < p2page_count → j < 512 → is_lazy v t j ≡ true → is_present x v t j ≡ true

  -- A free entry is not lazy.
  pub lazy_absent :
      {v : VCache x}
      → IsValid v
      → (t j : ℕ) → t < p2page_count
      → j < 512
      → is_present x v t j ≡ false
      → is_lazy v t j ≡ false
  lazy_absent {v} i t j lt lj free = elim (Bool-cases (is_lazy v t j)) [
    | inl old ↦ absurd (false≢true (sym free ∙ i.lazy_present t j lt lj old))
    | inr young ↦ young
  ]
