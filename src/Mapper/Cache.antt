-- ===== src/Mapper/Cache.antt =====
-- How `map` of kernel/src/mem/virt/mapper.rs uses two pages of the cache of temporary mappings.
use helium_os.Prelude.{
  ℕ, ◌+◌, ◌%◌, ◌<◌, ◌≡◌, inl, inr, refl, ap, sym, ◌∙◌, true, false, ◌&&◌, ◌||◌, not, Option, none,
  some, leb, ltb, ◌==◌, arith, ok, unwrap, Bool-cases,
}
use helium_os.Platform.{Paging, Indices, Flags}
use helium_os.Vcache.{
  VCache, is_present, p2page_count, page_at, start_addr, cache_size, cache_flags, holds_frame,
  install, remap,
}
use helium_os.Vcache.Cells.{update₂_hit, update₂_miss, both_tests, both_eq}
use helium_os.Vcache.Count.{count_same}
use helium_os.Vcache.Valid.{IsValid, is_absent, is_lazy}
use helium_os.Vcache.Unmap.{p2_index-page_at, p1_index-page_at}
use helium_os.Mapper.{translate}

module _ (x : Paging) (y : Indices) where
  open x use {Entry, new_entry, is_unused, flags, frame, set_frame}

  -- A page of the cache that is mapped.
  pub record Slot (v : VCache x) (t j : ℕ) : Type 0 where
    pub table : t < p2page_count
    pub page : j < 512
    pub present : is_present x v t j ≡ true

  -- Only frames of mapped pages differ.
  pub record Steady (v v' : VCache x) : Type 0 where
    pub len : v'.p1_len ≡ v.p1_len
    pub free : v'.p2_freecount ≡ v.p2_freecount
    pub lazy : v'.p2_lazycount ≡ v.p2_lazycount
    pub age : v'.p1_age ≡ v.p1_age
    pub present : (s k : ℕ) → is_present x v' s k ≡ is_present x v s k

  pub Steady-refl : (v : VCache x) → Steady v v
  Steady-refl v = record { len = refl; free = refl; lazy = refl; age = refl; present = λ s k. refl }

  pub Steady-trans : {u v w : VCache x} → Steady u v → Steady v w → Steady u w
  Steady-trans s r = record {
    len = r.len ∙ s.len;
    free = r.free ∙ s.free;
    lazy = r.lazy ∙ s.lazy;
    age = r.age ∙ s.age;
    present = λ t k. r.present t k ∙ s.present t k;
  }

  pub Steady-Slot : {v v' : VCache x} {t j : ℕ} → Steady v v' → Slot v t j → Slot v' t j
  Steady-Slot {t = t} {j = j} s o = record {
    table = o.table;
    page = o.page;
    present = s.present t j ∙ o.present;
  }

  lazy_same : {v v' : VCache x} → Steady v v' → (t j : ℕ) → is_lazy x v' t j ≡ is_lazy x v t j
  lazy_same s t j = ap (λ (age : ℕ → ℕ → ℕ). not (age t j == 0)) s.age

  pub Steady-IsValid : {v v' : VCache x} → Steady v v' → IsValid x v → IsValid x v'
  Steady-IsValid {v} {v'} s i = record {
    tables = s.len ∙ i.tables;
    free_count = λ t lt.
        ap (λ (c : ℕ → ℕ). c t) s.free
        ∙ (i.free_count t lt
            ∙ count_same (is_absent x v t) (is_absent x v' t) 512 0
                (λ j a b. ap not (sym (s.present t j))));
    lazy_count = λ t lt.
        ap (λ (c : ℕ → ℕ). c t) s.lazy
        ∙ (i.lazy_count t lt
            ∙ count_same (is_lazy x v t) (is_lazy x v' t) 512 0 (λ j a b. sym (lazy_same s t j)));
    lazy_present =
        λ t j lt lj h. s.present t j ∙ i.lazy_present t j lt lj (sym (lazy_same s t j) ∙ h);
  }

  translate-page_at :
      (v : VCache x) (t j : ℕ)
      → t < p2page_count
      → j < 512
      → translate x y v (page_at x t j) ≡ unwrap (frame (v.p1 t j))
  unfolding translate
  translate-page_at v t j lt lj =
      rw (p2_index-page_at x y t j lt lj, p1_index-page_at x y t j lj) refl

  install-Steady :
      (v : VCache x) (t j g : ℕ) → is_present x v t j ≡ true → Steady v (install x v t j g)
  install-Steady v t j g present = record {
    len = refl;
    free = refl;
    lazy = refl;
    age = refl;
    present = λ s k. elim (Bool-cases ((t == s) && (j == k))) [
      | inl hit ↦
          ap (λ (e : Entry). (flags e).present)
            (update₂_hit v.p1 t j (set_frame new_entry g (cache_flags x)) s k hit)
          ∙ (ap (λ (fl : Flags). fl.present) (x.flags-set_frame new_entry g (cache_flags x))
              ∙ sym (
                  ap (λ p. is_present x v p k) (sym (both_eq t j s k hit).0)
                  ∙ (ap (is_present x v t) (sym (both_eq t j s k hit).1) ∙ present)))
      | inr miss ↦
          ap (λ (e : Entry). (flags e).present)
            (update₂_miss v.p1 t j (set_frame new_entry g (cache_flags x)) s k miss)
    ];
  }

  -- `remap` of a mapped page makes it show a frame, and nothing else changes.
  pub remap-shows :
      {v : VCache x} {t j : ℕ} (g : ℕ)
      → v.p1_len ≡ p2page_count
      → Slot v t j
      → g % 0x1000 ≡ 0
      → (v' : VCache x) × (remap x y v (page_at x t j) g ≡ ok (true, v'))
        × Steady v v'
        × (translate x y v' (page_at x t j) ≡ ok g)
  unfolding remap
  remap-shows {v} {t} {j} g len o whole =
      let lt = o.table in
      let lj = o.page in
      let inside : (ltb (page_at x t j) start_addr || leb (start_addr + cache_size) (page_at x t j))
          ≡ false =
        ground (arith, lt, lj) in
      let small : ltb t v.p1_len ≡ true = ground (arith, len, lt) in
      elim (Bool-cases (not (is_unused (v.p1 t j)) && holds_frame (frame (v.p1 t j)) g)) [
        | inl same ↦ (
          v,
          rw (inside, p2_index-page_at x y t j lt lj, small, p1_index-page_at x y t j lj, same)
              refl,
          Steady-refl v,
          translate-page_at v t j lt lj
              ∙ ap unwrap (held (frame (v.p1 t j)) g (ground (arith, same))),
        )
        | inr other ↦ (
          install x v t j g,
          rw (inside, p2_index-page_at x y t j lt lj, small, p1_index-page_at x y t j lj, other)
              refl,
          install-Steady v t j g o.present,
          translate-page_at (install x v t j g) t j lt lj
              ∙ ap unwrap (
                  ap frame (update₂_hit v.p1 t j _ t j (both_tests t j))
                  ∙ x.frame-set_frame new_entry g (cache_flags x) whole refl),
        )
      ]
    where
      held : (o : Option ℕ) (g : ℕ) → holds_frame o g ≡ true → o ≡ some g
      held none g h = absurd (ground (arith, h))
      held (some f) g h = ground (arith, h)
