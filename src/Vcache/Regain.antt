-- ===== src/Vcache/Regain.antt =====
-- `VCache::map`, kernel/src/mem/virt/vcache.rs, once no table has a free page and the first table
-- has lazy ones.
use mathlib.Core.Path.{fun_ext}
use helium_os.Prelude.{
  ℕ, ◌+◌, ◌-◌, ◌<◌, ◌≡◌, ◌≢◌, inl, inr, refl, ap, ◌∙◌, sym, true, false, ◌&&◌, Option, none, some,
  ltb, ◌==◌, arith, Outcome, ok, Bool-cases, checked_sub, ◌>>=◌,
}
use helium_os.Platform.{Paging}
use helium_os.Vcache.{
  VCache, p2page_count, update, update₂, Reclaimed, reclaim, reclaim_table, find_lazy, fill, map,
  install, page_at, is_present,
}
use helium_os.Vcache.Count.{count}
use helium_os.Vcache.Cells.{ne_test, if_miss, update₂_hit, update₂_miss, both_eq}
use helium_os.Vcache.Valid.{is_lazy, IsValid}
use helium_os.Vcache.Map.{placed, placed-IsValid, scan_all, map-scan}
use helium_os.Vcache.Freed.{swept, swept-IsValid}
use helium_os.Vcache.Sweep.{Swept, Swept-start, reclaim-Swept}

module _ (x : Paging) where
  open x use {Entry, frame, new_entry, set_frame, flags}

  module _ {v : VCache x} (i : IsValid x v) (full : v.p2_freecount 0 ≡ 0) {r : Reclaimed x}
      (s : Swept x v 0 512 r) where
    -- The page that `fill` is given, the last one that became free.
    last_free :
        v.p2_lazycount 0 ≢ 0 → (j : ℕ) × (r.p1index ≡ some j) × (j < 512) × (is_lazy x v 0 j ≡ true)
    last_free ne = elim s.last [
      | inl e ↦ absurd (ne (i.lazy_count 0 (omega arith) ∙ (sym s.found ∙ e)))
      | inr l ↦ l
    ]

    fill-swept :
        (j f : ℕ)
        → j < 512
        → r.p1index ≡ some j
        → r.lazy_found_count ≢ 0
        → fill x (swept x r) (some 0) r.p1index f
          ≡ ok (some (page_at x 0 j), placed x (swept x r) 0 j (r.lazy_found_count - 1) f)
    unfolding fill
    fill-swept j f lj e ne =
        let sub : checked_sub r.lazy_found_count 1 ≡ ok (r.lazy_found_count - 1) =
          ground (arith, ne) in
        let len : ltb 0 r.cache.p1_len ≡ true = ground (arith, s.len, i.tables) in
        let old : r.cache.p1_age 0 j ≡ 0 = s.behind j lj in
        rw (e, sub, len) (ap (ages f j) (sym (clear_again r.cache.p1_age j old)))
      where
        ages : ℕ → ℕ → (ℕ → ℕ → ℕ) → Outcome (Option ℕ × VCache x)
        ages f j a = ok (
          some (page_at x 0 j),
          install x
              (record (swept x r) {
                p2_freecount = update (swept x r).p2_freecount 0 (r.lazy_found_count - 1);
                p1_age = a;
              })
              0 j f,
        )

        clear_again : (a : ℕ → ℕ → ℕ) (j : ℕ) → a 0 j ≡ 0 → update₂ a 0 j 0 ≡ a
        clear_again a j e = fun_ext (λ t. fun_ext (λ k. elim (Bool-cases ((0 == t) && (j == k))) [
          | inl hit ↦
              let (e₀, e₁) = both_eq 0 j t k hit in
              update₂_hit a 0 j 0 t k hit ∙ (sym e ∙ (ap (λ n. a n j) e₀ ∙ ap (a t) e₁))
          | inr miss ↦ update₂_miss a 0 j 0 t k miss
        ]))

  first_lazy : (v : VCache x) → v.p2_lazycount 0 ≢ 0 → find_lazy x v p2page_count 0 ≡ some 0
  unfolding find_lazy
  first_lazy v ne = if_miss _ _ _ (ne_test _ _ ne)

  abbrev start : VCache x → Reclaimed x
  start v = record { cache = v; lazy_found_count = 0; p1index = none }

  reclaim_table-reclaim :
      (v : VCache x) (limit : ℕ) (r : Reclaimed x)
      → v.p2_lazycount 0 ≢ 0
      → reclaim x 0 limit 512 0 (start v) ≡ ok r
      → reclaim_table x v limit ≡ ok (some 0, r.p1index, swept x r)
  unfolding reclaim_table
  reclaim_table-reclaim v limit r ne e = rw (first_lazy v ne, reclaim_table) (rw e refl)

  -- The second pass makes every lazy page of the first table free.
  reclaim_run :
      {v : VCache x}
      → IsValid x v
      → v.p2_lazycount 0 ≢ 0
      → (r : Reclaimed x) × (reclaim_table x v (v.p2_lazycount 0)
          ≡ ok (some 0, r.p1index, swept x r))
        × Swept x v 0 512 r
  reclaim_run {v} i ne =
      let (r, e, s) =
        reclaim-Swept x v 0 512 0 512 (start v) (omega arith) (omega (arith, i.tables))
          (Swept-start x v 0) in
      let limit : v.p2_lazycount 0 ≡ count (is_lazy x v 0) 512 0 = i.lazy_count 0 (omega arith) in
      (
        r,
        reclaim_table-reclaim v (v.p2_lazycount 0) r ne
            (ap (λ l. reclaim x 0 l 512 0 (start v)) limit ∙ e),
        s,
      )

  -- What `map` comes to when it reclaims: the swept cache `r`, and page `j` of the first table, which
  -- was lazy.
  pub record Regained (v : VCache x) (f j : ℕ) (r : Reclaimed x) : Type 0 where
    pub run :
        map x v f ≡ ok (some (page_at x 0 j), placed x (swept x r) 0 j (r.lazy_found_count - 1) f)
    pub all_free : Swept x v 0 512 r
    pub page : j < 512
    pub old : is_lazy x v 0 j ≡ true
    pub free : is_present x (swept x r) 0 j ≡ false
    pub found : r.lazy_found_count ≡ v.p2_lazycount 0
    pub less : r.lazy_found_count ≡ r.lazy_found_count - 1 + 1
    pub valid : IsValid x (placed x (swept x r) 0 j (r.lazy_found_count - 1) f)

  map-fill :
      {v : VCache x}
      → IsValid x v
      → ((t : ℕ) → t < p2page_count → v.p2_freecount t ≡ 0)
      → v.p2_lazycount 0 ≢ 0
      → (r : Reclaimed x) (f : ℕ) {out : Outcome (Option ℕ × VCache x)}
      → reclaim_table x v (v.p2_lazycount 0) ≡ ok (some 0, r.p1index, swept x r)
      → fill x (swept x r) (some 0) r.p1index f ≡ out
      → map x v f ≡ out
  map-fill {v} i full ne r f e last = elim (scan_all x v) [
    | inr (t, _, lt, some_free) ↦ absurd (some_free (full t lt))
    | inl (none_free, g) ↦
        map-scan x v f none_free ∙ (ap (λ o. o >>= (λ (p2i, p1i, u). fill x u p2i p1i f)) e ∙ last)
  ]

  pub map-Regained :
      {v : VCache x}
      → IsValid x v
      → (f : ℕ) → ((t : ℕ) → t < p2page_count → v.p2_freecount t ≡ 0)
      → v.p2_lazycount 0 ≢ 0
      → (j : ℕ) × (r : Reclaimed x) × Regained v f j r
  map-Regained {v} i f full ne =
      let (r, e, w) = reclaim_run i ne in
      let all = full 0 (omega arith) in
      let (j, last, lj, old) = last_free i all w ne in
      let found : r.lazy_found_count ≡ v.p2_lazycount 0 =
        w.found ∙ sym (i.lazy_count 0 (omega arith)) in
      let less : r.lazy_found_count ≡ r.lazy_found_count - 1 + 1 = omega (arith, found, ne) in
      let free : is_present x (swept x r) 0 j ≡ false = ground (arith, w.freed j lj old) in
      (
        j,
        r,
        record {
          run = map-fill i full ne r f e (fill-swept i all w j f lj last (omega (arith, less)));
          all_free = w;
          page = lj;
          old = old;
          free = free;
          found = found;
          less = less;
          valid =
              placed-IsValid x (swept-IsValid x i all w) 0 j (r.lazy_found_count - 1) f
                (omega arith) lj free less;
        },
      )
