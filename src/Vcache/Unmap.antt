-- ===== src/Vcache/Unmap.antt =====
-- `VCache::unmap`, `remap` and the round trip of a page through the cache.
use native.Mathlib.Decide.{ℕ_discrete}
use helium_os.Prelude.{
  ℕ, ◌+◌, ◌<◌, ◌≡◌, inl, inr, refl, ◌∙◌, sym, true, false, ◌&&◌, ltb, ◌==◌, if◌then◌else◌, arith,
  ok, checked_add, Bool-cases,
}
use helium_os.Platform.{Paging, Indices}
use helium_os.Vcache.{
  VCache, is_present, p2page_count, start_addr, page_at, update, update₂, p2_index, unmap,
}
use helium_os.Vcache.Cells.{
  if_hit, if_miss, update_hit, update_miss, both_tests, first_test, second_test, both_eq,
}
use helium_os.Vcache.Count.{count, count_le, count_same, count_drop}
use helium_os.Vcache.Valid.{is_lazy, IsValid}

-- The indices of the pages of the cache.
pub p2_index-page_at :
    (x : Paging) (y : Indices) (t j : ℕ)
    → t < p2page_count
    → j < 512
    → p2_index x y (page_at x t j) ≡ ok t
unfolding p2_index
p2_index-page_at x y t j lt lj =
    ground (arith, y.p2_index_lem (page_at x t j), y.p2_index_lem start_addr)

pub p1_index-page_at :
    (x : Paging) (y : Indices) (t j : ℕ) → j < 512 → y.p1_index (page_at x t j) ≡ j
p1_index-page_at x y t j lj = omega (arith, y.p1_index_lem (page_at x t j))

module _ (x : Paging) (y : Indices) where
  open x use {Entry, flags}

  -- The cache after the page of entry `(t, j)` became lazy.
  abbrev pub aged : VCache x → ℕ → ℕ → VCache x
  aged v t j = record v {
    p1_age = update₂ v.p1_age t j 1;
    p2_lazycount = update v.p2_lazycount t (v.p2_lazycount t + 1);
  }

  pub lazy-aged :
      (v : VCache x) (t j s k : ℕ)
      → is_lazy x (aged v t j) s k ≡ (if (t == s) && (j == k) then true else is_lazy x v s k)
  lazy-aged v t j s k = elim (Bool-cases ((t == s) && (j == k))) [
    | inl e ↦ rw e refl
    | inr e ↦ rw e refl
  ]

  pub aged-IsValid :
      {v : VCache x}
      → IsValid x v
      → (t j : ℕ) → t < p2page_count
      → j < 512
      → is_present x v t j ≡ true
      → is_lazy x v t j ≡ false
      → IsValid x (aged v t j)
  aged-IsValid {v} i t j lt lj present young = record {
    tables = i.tables;
    free_count = i.free_count;
    lazy_count = λ s ls. elim (ℕ_discrete t s) [
      | yes h ↦
          let more : count (is_lazy x (aged v t j) t) 512 0 ≡ count (is_lazy x v t) 512 0 + 1 =
            count_drop (is_lazy x (aged v t j) t) (is_lazy x v t) 512 0 j (omega arith)
              (omega arith) (lazy-aged v t j t j ∙ if_hit _ true _ (both_tests t j)) young
              (λ k ne. lazy-aged v t j t k ∙ if_miss _ true _ (second_test t ne)) in
          let now : v.p2_lazycount t + 1 ≡ count (is_lazy x (aged v t j) t) 512 0 =
            omega (arith, more, i.lazy_count t lt) in
          update_hit v.p2_lazycount t (v.p2_lazycount t + 1) s h ∙ (rw (← h) now)
      | no ne ↦
          update_miss v.p2_lazycount t (v.p2_lazycount t + 1) s ne
          ∙ (i.lazy_count s ls
              ∙ count_same (is_lazy x v s) (is_lazy x (aged v t j) s) 512 0
                  (λ k a b. sym (lazy-aged v t j s k ∙ if_miss _ true _ (first_test j k ne))))
    ];
    lazy_present = λ s k ls lk h. elim (Bool-cases ((t == s) && (j == k))) [
      | inl hit ↦ let (e, e') = both_eq t j s k hit in rw (← e, ← e') present
      | inr miss ↦ i.lazy_present s k ls lk (sym (lazy-aged v t j s k ∙ if_miss _ true _ miss) ∙ h)
    ];
  }

  pub unmap-aged :
      {v : VCache x}
      → IsValid x v
      → (t j : ℕ) → t < p2page_count
      → j < 512
      → unmap x y v (page_at x t j) ≡ ok (aged v t j)
  unfolding unmap
  unmap-aged {v} i t j lt lj =
      let room : checked_add 16 (v.p2_lazycount t) 1 ≡ ok (v.p2_lazycount t + 1) =
        ground (arith, i.lazy_count t lt, count_le (is_lazy x v t) 512 0) in
      let small : ltb t p2page_count ≡ true = ground (arith, lt) in
      rw (p2_index-page_at x y t j lt lj, small, room, p1_index-page_at x y t j lj) refl

  -- `unmap` of a page of the cache that is present and not lazy does not panic: the page becomes
  -- lazy, its table has one lazy page more, its entry and all others stay as they are, and the
  -- invariant is kept.
  pub unmap-IsValid :
      {v : VCache x}
      → IsValid x v
      → (t j s k : ℕ) → t < p2page_count
      → j < 512
      → is_present x v t j ≡ true
      → is_lazy x v t j ≡ false
      → (v' : VCache x) × (unmap x y v (page_at x t j) ≡ ok v')
        × (is_lazy x v' t j ≡ true)
        × (v'.p2_lazycount t ≡ v.p2_lazycount t + 1)
        × (v'.p1 s k ≡ v.p1 s k)
        × IsValid x v'
  unmap-IsValid {v} i t j s k lt lj present young = (
    aged v t j,
    unmap-aged i t j lt lj,
    lazy-aged v t j t j ∙ if_hit _ true _ (both_tests t j),
    update_hit v.p2_lazycount t (v.p2_lazycount t + 1) t refl,
    refl,
    aged-IsValid i t j lt lj present young,
  )
