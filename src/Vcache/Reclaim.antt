-- ===== src/Vcache/Reclaim.antt =====
-- `VCache::map` once no table has a free page.
use helium_os.Prelude.{
  ℕ, ◌<◌, ◌≡◌, ◌≢◌, inl, inr, refl, ap, ◌∙◌, sym, Option, none, some, arith, ok, panic, ◌>>=◌,
  Option-cases, >>=-eq-ok,
}
use helium_os.Platform.{Paging}
use helium_os.Vcache.{VCache, p2page_count, scan, find_lazy, reclaim, reclaim_table, fill, map}
use helium_os.Vcache.Cells.{eq_test}
use helium_os.Vcache.Map.{scan_all, map-scan}

module _ (x : Paging) where
  -- The second pass with a limit of 0 marks nothing as free.
  nothing_reclaimed :
      (v : VCache x) (f : ℕ)
      → (reclaim_table x v 0 >>= (λ (p2i, p1i, v'). fill x v' p2i p1i f)) ≡ panic
  unfolding reclaim_table reclaim fill
  nothing_reclaimed v f = elim (Option-cases (find_lazy x v p2page_count 0)) [
    | inl e ↦ rw (e, reclaim_table) refl
    | inr (t, e) ↦ rw (e, reclaim_table) (rw (eq_test t t refl) refl)
  ]

  -- When no table has a free page and the first table has no lazy page, `map` panics, whether or
  -- not the other tables have lazy pages to reclaim: the limit of the second pass is the lazy
  -- count of the first table.
  pub map-exhausted :
      (v : VCache x) (f : ℕ)
      → ((t : ℕ) → t < p2page_count → v.p2_freecount t ≡ 0)
      → v.p2_lazycount 0 ≡ 0
      → map x v f ≡ panic
  map-exhausted v f full young = elim (scan_all x v) [
    | inl (e, g) ↦
        let start : scan x v p2page_count 0 none ≡ (some 0, none) =
          e ∙ ap (λ (c : ℕ). (some c, none)) young in
        map-scan x v f start ∙ nothing_reclaimed v f
    | inr (t, e, lt, ne) ↦ absurd (ne (full t lt))
  ]

  fill_some : (v v' : VCache x) (p q : Option ℕ) (f : ℕ) → fill x v p q f ≢ ok (none, v')
  unfolding fill
  fill_some v v' p q f h = ground arith

  -- `map` never returns `Err(())`: it gives a page or it panics.
  map-ne-err : (v v' : VCache x) (f : ℕ) → map x v f ≢ ok (none, v')
  map-ne-err v v' f h = elim (scan_all x v) [
    | inl (e, g) ↦
        let (r, _, last) =
          >>=-eq-ok (reclaim_table x v (v.p2_lazycount 0)) (λ (p2i, p1i, w). fill x w p2i p1i f)
            (sym (map-scan x v f e) ∙ h) in
        fill_some r.2 v' r.0 r.1 f last
    | inr (t, e, lt, ne) ↦ fill_some v v' (some t) none f (sym (map-scan x v f e) ∙ h)
  ]
