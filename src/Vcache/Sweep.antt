-- ===== src/Vcache/Sweep.antt =====
-- The loop of `VCache::map`, kernel/src/mem/virt/vcache.rs, that makes lazy pages of a table free.
use mathlib.Core.Path.{subst}
use native.Mathlib.Decide.{ℕ_discrete}
use helium_os.Prelude.{
  ℕ, zero, suc, ◌+◌, ◌≤◌, ◌<◌, ◌≡◌, ◌≢◌, ◌⊎◌, inl, inr, refl, ap, ◌∙◌, sym, true, false, not, none,
  some, leb, ltb, ◌==◌, if◌then◌else◌, arith, ok, Bool-cases,
}
use helium_os.Platform.{Paging, Flags}
use helium_os.Vcache.{VCache, update₂, Reclaimed, reclaim_page, reclaim}
use helium_os.Vcache.Count.{count, count_split, count_snoc, count_zero}
use helium_os.Vcache.Cells.{
  if_hit, if_miss, update₂_hit, update₂_miss, both_tests, first_test, second_test,
}
use helium_os.Vcache.Valid.{is_absent, is_lazy}

module _ (x : Paging) (v : VCache x) (t : ℕ) where
  open x use {Entry, flags, set_flags}

  -- Of table `t` the lazy pages below `i` are free now.
  pub record Swept (i : ℕ) (r : Reclaimed x) : Type 0 where
    pub len : r.cache.p1_len ≡ v.p1_len
    pub free : r.cache.p2_freecount ≡ v.p2_freecount
    pub lazy : r.cache.p2_lazycount ≡ v.p2_lazycount
    pub found : r.lazy_found_count ≡ count (is_lazy x v t) i 0
    pub ahead_age : (j : ℕ) → i ≤ j → r.cache.p1_age t j ≡ v.p1_age t j
    pub ahead : (j : ℕ) → i ≤ j → r.cache.p1 t j ≡ v.p1 t j
    pub behind : (j : ℕ) → j < i → r.cache.p1_age t j ≡ 0
    pub freed : (j : ℕ) → j < i → is_lazy x v t j ≡ true → is_absent x r.cache t j ≡ true
    pub kept : (j : ℕ) → is_lazy x v t j ≡ false → r.cache.p1 t j ≡ v.p1 t j
    pub other_age : (s k : ℕ) → t ≢ s → r.cache.p1_age s k ≡ v.p1_age s k
    pub other : (s k : ℕ) → t ≢ s → r.cache.p1 s k ≡ v.p1 s k
    pub last :
        (r.lazy_found_count ≡ 0)
        ⊎ ((j : ℕ) × (r.p1index ≡ some j) × (j < i) × (is_lazy x v t j ≡ true))

  pub Swept-start : Swept 0 (record { cache = v; lazy_found_count = 0; p1index = none })
  unfolding count
  Swept-start = record {
    len = refl;
    free = refl;
    lazy = refl;
    found = refl;
    ahead_age = λ j le. refl;
    ahead = λ j le. refl;
    behind = λ j lt. absurd (omega (arith, lt));
    freed = λ j lt e. absurd (omega (arith, lt));
    kept = λ j e. refl;
    other_age = λ s k ne. refl;
    other = λ s k ne. refl;
    last = inl refl;
  }

  -- The next page is not lazy.
  Swept-skip : {i : ℕ} {r : Reclaimed x} → is_lazy x v t i ≡ false → Swept i r → Swept (suc i) r
  Swept-skip {i} {r} young s = record {
    len = s.len;
    free = s.free;
    lazy = s.lazy;
    found = s.found ∙ (omega (arith, none_here, count_snoc (is_lazy x v t) i));
    ahead_age = λ j le. s.ahead_age j (omega (arith, le));
    ahead = λ j le. s.ahead j (omega (arith, le));
    behind = λ j lt. elim (ℕ_discrete j i) [
      | yes e ↦ ap (r.cache.p1_age t) e ∙ (s.ahead_age i (omega arith) ∙ ground (arith, young))
      | no ne ↦ s.behind j (omega (arith, lt, ne))
    ];
    freed = λ j lt old. elim (ℕ_discrete j i) [
      | yes e ↦ absurd (ground (arith, old, young, ap (is_lazy x v t) e))
      | no ne ↦ s.freed j (omega (arith, lt, ne)) old
    ];
    kept = s.kept;
    other_age = s.other_age;
    other = s.other;
    last = elim s.last [ inl e ↦ inl e | inr (j, e, lt, old) ↦ inr (j, e, omega (arith, lt), old) ];
  }
    where
      none_here : ◌≡◌ {A = ℕ} (if is_lazy x v t i then 1 else 0) 0
      none_here = rw young refl

  -- The next page is lazy, and becomes free.
  Swept-take :
      {i : ℕ} {r : Reclaimed x}
      → is_lazy x v t i ≡ true
      → Swept i r
      → Swept (suc i) (reclaim_page x t i r)
  unfolding reclaim_page
  Swept-take {i} {r} old s = record {
    len = s.len;
    free = s.free;
    lazy = s.lazy;
    found = ap (λ n. n + 1) s.found ∙ (omega (arith, one_here, count_snoc (is_lazy x v t) i));
    ahead_age = λ j le.
        update₂_miss r.cache.p1_age t i 0 t j (second_test t (λ e. omega (arith, le, e)))
        ∙ s.ahead_age j (omega (arith, le));
    ahead = λ j le.
        update₂_miss r.cache.p1 t i e' t j (second_test t (λ e. omega (arith, le, e)))
        ∙ s.ahead j (omega (arith, le));
    behind = λ j lt. elim (ℕ_discrete j i) [
      | yes e ↦ ground (arith, e)
      | no ne ↦
          update₂_miss r.cache.p1_age t i 0 t j (second_test t ne)
          ∙ s.behind j (omega (arith, lt, ne))
    ];
    freed = λ j lt old'. elim (ℕ_discrete j i) [
      | yes e ↦
          ap (λ (p : ℕ). not (flags (update₂ r.cache.p1 t i e' t p)).present) e
          ∙ (ap (λ (p : Entry). not (flags p).present)
                (update₂_hit r.cache.p1 t i e' t i (both_tests t i))
              ∙ ap (λ (fl : Flags). not fl.present) (x.flags-set_flags (r.cache.p1 t i) cleared))
      | no ne ↦
          ap (λ (p : Entry). not (flags p).present)
            (update₂_miss r.cache.p1 t i e' t j (second_test t ne))
          ∙ s.freed j (omega (arith, lt, ne)) old'
    ];
    kept = λ j young.
        update₂_miss r.cache.p1 t i e' t j
          (second_test t (λ e. absurd (ground (arith, old, young, ap (is_lazy x v t) e))))
        ∙ s.kept j young;
    other_age =
        λ s' k ne. update₂_miss r.cache.p1_age t i 0 s' k (first_test i k ne) ∙ s.other_age s' k ne;
    other = λ s' k ne. update₂_miss r.cache.p1 t i e' s' k (first_test i k ne) ∙ s.other s' k ne;
    last = inr (i, refl, omega arith, old);
  }
    where
      one_here : ◌≡◌ {A = ℕ} (if is_lazy x v t i then 1 else 0) 1
      one_here = rw old refl

      cleared : Flags
      cleared = record (flags (r.cache.p1 t i)) { present = false }

      e' : Entry
      e' = set_flags (r.cache.p1 t i) cleared

  -- A loop that stops early has left no lazy page behind.
  Swept-rest :
      (n : ℕ) {i : ℕ} {r : Reclaimed x}
      → ((j : ℕ) → i ≤ j → j < i + n → is_lazy x v t j ≡ false)
      → Swept i r
      → Swept (i + n) r
  Swept-rest zero {i} {r} young s = subst (λ k. Swept k r) (omega arith) s
  Swept-rest (suc n) {i} {r} young s =
      subst (λ k. Swept k r) (omega arith)
        (Swept-rest n (λ j le lt. young j (omega (arith, le)) (omega (arith, lt)))
          (Swept-skip (young i (omega arith) (omega arith)) s))

  -- With the number of lazy pages as its limit, the loop frees all of them.
  pub reclaim-Swept :
      (n i m : ℕ) (r : Reclaimed x)
      → i + n ≡ m
      → t < v.p1_len
      → Swept i r
      → (r' : Reclaimed x) × (reclaim x t (count (is_lazy x v t) m 0) n i r ≡ ok r') × Swept m r'
  unfolding reclaim
  reclaim-Swept zero i m r sum lt s = (r, refl, subst (λ k. Swept k r) (omega (arith, sum)) s)
  reclaim-Swept (suc n) i m r sum lt s =
      elim (Bool-cases (leb (count (is_lazy x v t) m 0) r.lazy_found_count)) [
        | inl stop ↦ (
          r,
          if_hit _ (ok r) _ stop,
          subst (λ k. Swept k r) sum
              (Swept-rest (suc n)
                (λ j le lt'. count_zero (is_lazy x v t) (suc n) i j (none_left stop) le lt') s),
        )
        | inr go ↦ elim (Bool-cases (r.cache.p1_age t i == 0)) [
          | inl young ↦
              let (r', e, s') = reclaim-Swept n (i + 1) m r (omega (arith, sum)) lt (skip young) in
              (r', if_miss _ (ok r) _ go ∙ (if_hit _ _ _ young ∙ e), s')
          | inr old ↦
              let (r', e, s') =
                reclaim-Swept n (i + 1) m (reclaim_page x t i r) (omega (arith, sum)) lt
                  (take old) in
              (r', if_miss _ (ok r) _ go ∙ (if_miss _ _ _ old ∙ (if_hit _ _ _ table ∙ e)), s')
        ]
      ]
    where
      age : is_lazy x v t i ≡ not (r.cache.p1_age t i == 0)
      age = ap (λ (a : ℕ). not (a == 0)) (sym (s.ahead_age i (omega arith)))

      table : ltb t r.cache.p1_len ≡ true
      table = ground (arith, s.len, lt)

      none_left :
          leb (count (is_lazy x v t) m 0) r.lazy_found_count ≡ true
          → count (is_lazy x v t) (suc n) i ≡ 0
      none_left stop =
          let split =
            ap (λ k. count (is_lazy x v t) k 0) (sym sum)
            ∙ count_split (is_lazy x v t) i (suc n) 0 in
          let e : count (is_lazy x v t) (suc n) (0 + i) ≡ count (is_lazy x v t) (suc n) i =
            ap (count (is_lazy x v t) (suc n)) (omega arith) in
          ground (arith, stop, s.found, split, e)

      skip : (r.cache.p1_age t i == 0) ≡ true → Swept (i + 1) r
      skip young = subst (λ k. Swept k r) (omega arith) (Swept-skip (age ∙ ap not young) s)

      take : (r.cache.p1_age t i == 0) ≡ false → Swept (i + 1) (reclaim_page x t i r)
      take old =
          subst (λ k. Swept k (reclaim_page x t i r)) (omega arith)
            (Swept-take (age ∙ ap not old) s)
