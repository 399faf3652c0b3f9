-- ===== src/Vcache/Map.antt =====
-- `VCache::map` while some table has a free page.
use native.Mathlib.Decide.{ℕ_discrete}
use helium_os.Prelude.{
  ℕ, zero, suc, ◌+◌, ◌-◌, ◌%◌, ◌≤◌, ◌<◌, ◌≡◌, ◌≢◌, ◌⊎◌, inl, inr, refl, ap, ◌∙◌, sym, true, false,
  ◌&&◌, not, Option, none, some, ltb, ◌==◌, if◌then◌else◌, arith, ok, checked_sub, Bool-cases,
}
use helium_os.Platform.{Paging, Flags}
use helium_os.Vcache.{
  VCache, is_present, p2page_count, update, update₂, scan, find_absent, fill, after_scan, map,
  install, page_at, cache_flags,
}
use helium_os.Vcache.Count.{count, count_same, count_drop}
use helium_os.Vcache.Valid.{is_absent, is_lazy, IsValid, lazy_absent}
use helium_os.Vcache.Cells.{
  eq_test, ne_test, update_hit, update_miss, update₂_hit, update₂_miss, if_hit, if_miss, both_tests,
  first_test, second_test, both_eq,
}

module _ (x : Paging) where
  open x use {Entry, new_entry, is_unused, flags, frame, set_frame, set_flags}

  find_absent_cases :
      (v : VCache x) (t n i : ℕ)
      → ((find_absent x v t n i ≡ none) × (count (is_absent x v t) n i ≡ 0))
        ⊎ ((j : ℕ) × (find_absent x v t n i ≡ some j)
            × (i ≤ j)
            × (j < i + n)
            × (is_present x v t j ≡ false))
  unfolding find_absent count
  find_absent_cases v t zero i = inl (refl, refl)
  find_absent_cases v t (suc n) i = elim (Bool-cases (is_present x v t i)) [
    | inr e ↦ inr (i, rw e refl, omega arith, omega arith, e)
    | inl e ↦ elim (find_absent_cases v t n (i + 1)) [
      | inl (f, c) ↦ inl (rw (e, f) refl, rw (e, c) refl)
      | inr (j, f, a, b, g) ↦ inr (j, rw (e, f) refl, omega arith, omega arith, g)
    ]
  ]

  -- The cache after entry `(t, j)` was given to a frame.
  abbrev pub placed : VCache x → ℕ → ℕ → ℕ → ℕ → VCache x
  placed v t j count f =
      install x
        (record v { p2_freecount = update v.p2_freecount t count; p1_age = update₂ v.p1_age t j 0 })
        t j f

  pub absent-placed :
      (v : VCache x) (t j c f s k : ℕ)
      → is_absent x (placed v t j c f) s k
        ≡ (if (t == s) && (j == k) then false else is_absent x v s k)
  absent-placed v t j c f s k = elim (Bool-cases ((t == s) && (j == k))) [
    | inl e ↦
        ap (λ (en : Entry). not (flags en).present)
          (update₂_hit v.p1 t j (set_frame new_entry f (cache_flags x)) s k e)
        ∙ (ap (λ (fl : Flags). not fl.present) (x.flags-set_frame new_entry f (cache_flags x))
            ∙ sym (if_hit _ false (is_absent x v s k) e))
    | inr e ↦
        ap (λ (en : Entry). not (flags en).present)
          (update₂_miss v.p1 t j (set_frame new_entry f (cache_flags x)) s k e)
        ∙ sym (if_miss _ false (is_absent x v s k) e)
  ]

  pub lazy-placed :
      (v : VCache x) (t j c f s k : ℕ)
      → is_lazy x (placed v t j c f) s k ≡ (if (t == s) && (j == k) then false else is_lazy x v s k)
  lazy-placed v t j c f s k = elim (Bool-cases ((t == s) && (j == k))) [
    | inl e ↦ rw e refl
    | inr e ↦ rw e refl
  ]

  module _ {v : VCache x} (i : IsValid x v) (t j c f : ℕ) (lt : t < p2page_count)
      (lj : j < 512) where
    here_count :
        is_present x v t j ≡ false
        → count (is_absent x v t) 512 0 ≡ count (is_absent x (placed v t j c f) t) 512 0 + 1
    here_count free =
        count_drop (is_absent x v t) (is_absent x (placed v t j c f) t) 512 0 j (omega arith)
          (omega arith) (ap not free)
          (absent-placed v t j c f t j ∙ if_hit _ false _ (both_tests t j))
          (λ k ne. sym (absent-placed v t j c f t k ∙ if_miss _ false _ (second_test t ne)))

    there_count :
        {s : ℕ}
        → t ≢ s
        → count (is_absent x v s) 512 0 ≡ count (is_absent x (placed v t j c f) s) 512 0
    there_count {s} ne =
        count_same (is_absent x v s) (is_absent x (placed v t j c f) s) 512 0
          (λ k a b. sym (absent-placed v t j c f s k ∙ if_miss _ false _ (first_test j k ne)))

    same_lazy :
        is_present x v t j ≡ false → (s k : ℕ) → is_lazy x v s k ≡ is_lazy x (placed v t j c f) s k
    same_lazy free s k = elim (Bool-cases ((t == s) && (j == k))) [
      | inl hit ↦
          let (e, e') = both_eq t j s k hit in
          let aged : is_lazy x v t j ≡ false = lazy_absent x i t j lt lj free in
          rw (← e, ← e') aged ∙ sym (lazy-placed v t j c f s k ∙ if_hit _ false _ hit)
      | inr miss ↦ sym (lazy-placed v t j c f s k ∙ if_miss _ false _ miss)
    ]

    -- The counts still fit when a free entry was given away, and the free count went down by one.
    pub placed-IsValid :
        is_present x v t j ≡ false → v.p2_freecount t ≡ c + 1 → IsValid x (placed v t j c f)
    placed-IsValid free e = record {
      tables = i.tables;
      free_count = λ s ls. elim (ℕ_discrete t s) [
        | yes h ↦
            let now : c ≡ count (is_absent x (placed v t j c f) t) 512 0 =
              omega (arith, e, i.free_count t lt, here_count free) in
            update_hit v.p2_freecount t c s h ∙ (rw (← h) now)
        | no ne ↦ update_miss v.p2_freecount t c s ne ∙ (i.free_count s ls ∙ there_count ne)
      ];
      lazy_count = λ s ls.
          i.lazy_count s ls
          ∙ count_same (is_lazy x v s) (is_lazy x (placed v t j c f) s) 512 0
              (λ k a b. same_lazy free s k);
      lazy_present = λ s k ls lk h. elim (Bool-cases ((t == s) && (j == k))) [
        | inl hit ↦
            ap (λ (en : Entry). (flags en).present)
              (update₂_hit v.p1 t j (set_frame new_entry f (cache_flags x)) s k hit)
            ∙ ap (λ (fl : Flags). fl.present) (x.flags-set_frame new_entry f (cache_flags x))
        | inr miss ↦
            ap (λ (en : Entry). (flags en).present)
              (update₂_miss v.p1 t j (set_frame new_entry f (cache_flags x)) s k miss)
            ∙ i.lazy_present s k ls lk (same_lazy free s k ∙ h)
      ];
    }

  -- `fill` on a table with a free page takes the first entry that is not present.
  fill_free :
      {v : VCache x}
      → IsValid x v
      → (t f : ℕ) → t < p2page_count
      → v.p2_freecount t ≢ 0
      → (j : ℕ) × (fill x v (some t) none f
          ≡ ok (some (page_at x t j), placed v t j (v.p2_freecount t - 1) f))
        × (j < 512)
        × (is_present x v t j ≡ false)
  unfolding fill
  fill_free {v} i t f lt ne =
      let w : VCache x = record v {
        p2_freecount = update v.p2_freecount t (v.p2_freecount t - 1);
      } in
      let sub : checked_sub (v.p2_freecount t) 1 ≡ ok (v.p2_freecount t - 1) = ground (arith, ne) in
      let len : ltb t v.p1_len ≡ true = ground (arith, i.tables, lt) in
      elim (find_absent_cases w t 512 0) [
        | inl (e, c) ↦ absurd (ne (omega (arith, c, i.free_count t lt)))
        | inr (j, e, a, b, free) ↦ (j, rw (sub, len, e) refl, omega (arith, b), free)
      ]

  scan-some :
      (v : VCache x) (n i c : ℕ)
      → ((scan x v n i (some c) ≡ (some c, none))
          × ((j : ℕ) → i ≤ j → j < i + n → v.p2_freecount j ≡ 0))
        ⊎ ((t : ℕ) × (scan x v n i (some c) ≡ (some c, some t))
            × (i ≤ t)
            × (t < i + n)
            × (v.p2_freecount t ≢ 0))
  unfolding scan
  scan-some v zero i c = inl (refl, λ j a b. absurd (omega arith))
  scan-some v (suc n) i c = elim (ℕ_discrete (v.p2_freecount i) 0) [
    | no ne ↦ inr (i, if_miss _ _ _ (ne_test _ _ ne), omega arith, omega arith, ne)
    | yes e ↦ elim (scan-some v n (i + 1) c) [
      | inl (f, g) ↦ inl (
        if_hit _ _ _ (eq_test _ _ e) ∙ f,
        λ j a b. elim (ℕ_discrete i j) [
          | yes h ↦ rw (← h) e
          | no ne ↦ g j (omega arith) (omega arith)
        ],
      )
      | inr (t, f, a, b, g) ↦ inr (t, if_hit _ _ _ (eq_test _ _ e) ∙ f, omega arith, omega arith, g)
    ]
  ]

  -- The first loop of `map` over all four tables.
  pub scan_all :
      (v : VCache x)
      → ((scan x v p2page_count 0 none ≡ (some (v.p2_lazycount 0), none))
          × ((j : ℕ) → j < p2page_count → v.p2_freecount j ≡ 0))
        ⊎ ((t : ℕ) × (scan x v p2page_count 0 none ≡ (some (v.p2_lazycount 0), some t))
            × (t < p2page_count)
            × (v.p2_freecount t ≢ 0))
  unfolding scan
  scan_all v = elim (ℕ_discrete (v.p2_freecount 0) 0) [
    | no ne ↦ inr (0, if_miss _ _ _ (ne_test _ _ ne), omega arith, ne)
    | yes e ↦ elim (scan-some v 3 1 (v.p2_lazycount 0)) [
      | inl (f, g) ↦ inl (
        if_hit _ _ _ (eq_test _ _ e) ∙ f,
        λ j b. elim (ℕ_discrete 0 j) [
          | yes h ↦ rw (← h) e
          | no ne ↦ g j (omega arith) (omega arith)
        ],
      )
      | inr (t, f, a, b, g) ↦ inr (t, if_hit _ _ _ (eq_test _ _ e) ∙ f, omega arith, g)
    ]
  ]

  pub map-scan :
      (v : VCache x) (f : ℕ) {a b : Option ℕ}
      → scan x v p2page_count 0 none ≡ (a, b)
      → map x v f ≡ after_scan x v b a f
  unfolding map
  map-scan v f e = ap (λ (r : Option ℕ × Option ℕ). after_scan x v r.1 r.0 f) e

  -- `map` takes a free page, and what it changes is known.
  pub map-placed :
      {v : VCache x}
      → IsValid x v
      → (f table : ℕ) → table < p2page_count
      → v.p2_freecount table ≢ 0
      → (t j : ℕ) × (map x v f ≡ ok (some (page_at x t j), placed v t j (v.p2_freecount t - 1) f))
        × (t < p2page_count)
        × (j < 512)
        × (is_present x v t j ≡ false)
        × (v.p2_freecount t ≢ 0)
  map-placed {v} i f table lt ne = elim (scan_all v) [
    | inl (e, g) ↦ absurd (ne (g table lt))
    | inr (t, e, lt', ne') ↦
        let (j, run, lj, free) = fill_free i t f lt' ne' in
        (t, j, map-scan v f e ∙ run, lt', lj, free, ne')
  ]

  -- While some table has a free page, `map` does not panic and returns a page of the cache. The
  -- entry of that page was not present and now holds the frame, present and writable; no other
  -- entry changes, and the invariant is kept.
  pub map-free :
      {v : VCache x}
      → IsValid x v
      → (f table s k : ℕ) → f % 0x1000 ≡ 0
      → table < p2page_count
      → v.p2_freecount table ≢ 0
      → (t j : ℕ) × (v' : VCache x) × (map x v f ≡ ok (some (page_at x t j), v'))
        × (t < p2page_count)
        × (j < 512)
        × (is_present x v t j ≡ false)
        × (frame (v'.p1 t j) ≡ some f)
        × (flags (v'.p1 t j) ≡ cache_flags x)
        × (((s ≡ t) × (k ≡ j)) ⊎ (v'.p1 s k ≡ v.p1 s k))
        × IsValid x v'
  map-free {v} i f table s k af lt ne = elim (scan_all v) [
    | inl (e, g) ↦ absurd (ne (g table lt))
    | inr (t, e, lt', ne') ↦
        let (j, run, lj, free) = fill_free i t f lt' ne' in
        let v' : VCache x = placed v t j (v.p2_freecount t - 1) f in
        let entry : v'.p1 t j ≡ set_frame new_entry f (cache_flags x) =
          update₂_hit v.p1 t j _ t j (both_tests t j) in
        (
          t,
          j,
          v',
          map-scan v f e ∙ run,
          lt',
          lj,
          free,
          ap frame entry ∙ x.frame-set_frame new_entry f (cache_flags x) af refl,
          ap flags entry ∙ x.flags-set_frame new_entry f (cache_flags x),
          others t j s k v,
          placed-IsValid i t j (v.p2_freecount t - 1) f lt' lj free (omega (arith, ne')),
        )
  ]
    where
      others :
          (t j s k : ℕ) (v : VCache x)
          → ((s ≡ t) × (k ≡ j)) ⊎ ((placed v t j (v.p2_freecount t - 1) f).p1 s k ≡ v.p1 s k)
      others t j s k v = elim (Bool-cases ((t == s) && (j == k))) [
        | inl hit ↦ inl (sym (both_eq t j s k hit).0, sym (both_eq t j s k hit).1)
        | inr miss ↦ inr (update₂_miss v.p1 t j _ s k miss)
      ]
