-- ===== src/Vcache/Freed.antt =====
-- The cache after `VCache::map`, kernel/src/mem/virt/vcache.rs, made the lazy pages of the first
-- table free.
use native.Mathlib.Decide.{ℕ_discrete}
use helium_os.Prelude.{
  ℕ, zero, suc, ◌+◌, ◌≤◌, ◌<◌, ◌≡◌, ◌≢◌, inl, inr, refl, ap, ◌∙◌, sym, Bool, false, not, ◌==◌,
  arith, Bool-cases,
}
use helium_os.Platform.{Paging}
use helium_os.Vcache.{VCache, update, Reclaimed}
use helium_os.Vcache.Count.{count, count_same, count_zero}
use helium_os.Vcache.Cells.{update_hit, update_miss}
use helium_os.Vcache.Valid.{is_absent, is_lazy, IsValid}
use helium_os.Vcache.Sweep.{Swept}

-- A test that nothing passes counts nothing.
count_none :
    (p : ℕ → Bool) (n i : ℕ) → ((j : ℕ) → i ≤ j → j < i + n → p j ≡ false) → count p n i ≡ 0
unfolding count
count_none p zero i h = refl
count_none p (suc n) i h =
    rw
      (
        h i (omega arith) (omega arith),
        count_none p n (i + 1) (λ j a b. h j (omega (arith, a)) (omega (arith, b))),
      )
      refl

module _ (x : Paging) where
  open x use {Entry, frame, new_entry, set_frame, flags}

  -- The cache after the pages of the first table were swept.
  abbrev pub swept : Reclaimed x → VCache x
  swept r = record r.cache {
    p2_freecount = update r.cache.p2_freecount 0 r.lazy_found_count;
    p2_lazycount = update r.cache.p2_lazycount 0 0;
  }

  module _ {v : VCache x} (i : IsValid x v) (full : v.p2_freecount 0 ≡ 0) {r : Reclaimed x}
      (s : Swept x v 0 512 r) where
    -- A page of the first table is free now if it was lazy.
    now_free : (j : ℕ) → j < 512 → is_lazy x v 0 j ≡ is_absent x r.cache 0 j
    now_free j lj = elim (Bool-cases (is_lazy x v 0 j)) [
      | inl old ↦ old ∙ sym (s.freed j lj old)
      | inr young ↦
          let taken : is_absent x v 0 j ≡ false =
            count_zero (is_absent x v 0) 512 0 j (sym (i.free_count 0 (omega arith)) ∙ full)
              (omega arith) (omega (arith, lj)) in
          young ∙ (sym taken ∙ ap (λ (e : Entry). not (flags e).present) (sym (s.kept j young)))
    ]

    pub swept-IsValid : IsValid x (swept r)
    swept-IsValid = record {
      tables = s.len ∙ i.tables;
      free_count = λ t lt. elim (ℕ_discrete 0 t) [
        | yes e ↦
            update_hit r.cache.p2_freecount 0 r.lazy_found_count t e
            ∙ (s.found
                ∙ (count_same (is_lazy x v 0) (is_absent x r.cache 0) 512 0 (λ j a b. now_free j b)
                    ∙ ap (λ (t' : ℕ). count (is_absent x r.cache t') 512 0) e))
        | no ne ↦
            update_miss r.cache.p2_freecount 0 r.lazy_found_count t ne
            ∙ (ap (λ f. f t) s.free
                ∙ (i.free_count t lt
                    ∙ count_same (is_absent x v t) (is_absent x r.cache t) 512 0 (λ j a b.
                      ap (λ (e : Entry). not (flags e).present) (sym (s.other t j ne)))))
      ];
      lazy_count = λ t lt. elim (ℕ_discrete 0 t) [
        | yes e ↦
            update_hit r.cache.p2_lazycount 0 0 t e
            ∙ (sym (count_none (is_lazy x r.cache 0) 512 0 (λ j a b. young j b))
                ∙ ap (λ (t' : ℕ). count (is_lazy x r.cache t') 512 0) e)
        | no ne ↦
            update_miss r.cache.p2_lazycount 0 0 t ne
            ∙ (ap (λ f. f t) s.lazy
                ∙ (i.lazy_count t lt
                    ∙ count_same (is_lazy x v t) (is_lazy x r.cache t) 512 0
                        (λ j a b. sym (same_age t j ne))))
      ];
      lazy_present = λ t j lt lj old. elim (ℕ_discrete 0 t) [
        | yes e ↦
            absurd (ground (arith, old, ap (λ (t' : ℕ). is_lazy x r.cache t' j) e, young j lj))
        | no ne ↦
            ap (λ (e : Entry). (flags e).present) (s.other t j ne)
            ∙ i.lazy_present t j lt lj (sym (same_age t j ne) ∙ old)
      ];
    }
      where
        young : (j : ℕ) → j < 512 → is_lazy x r.cache 0 j ≡ false
        young j lj = ap (λ (a : ℕ). not (a == 0)) (s.behind j lj)

        same_age : (t j : ℕ) → 0 ≢ t → is_lazy x r.cache t j ≡ is_lazy x v t j
        same_age t j ne = ap (λ (a : ℕ). not (a == 0)) (s.other_age t j ne)
