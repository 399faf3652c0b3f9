-- ===== src/Vcache/Reused.antt =====
-- What `VCache::map`, kernel/src/mem/virt/vcache.rs, changes when it reclaims lazy pages.
use mathlib.Core.Path.{subst}
use native.Mathlib.Decide.{ℕ_discrete}
use helium_os.Prelude.{
  ℕ, ◌+◌, ◌-◌, ◌%◌, ◌<◌, ◌≡◌, ◌≢◌, ◌⊎◌, inl, inr, refl, ap, ◌∙◌, sym, true, false, some, arith, ok,
  Bool-cases,
}
use helium_os.Platform.{Paging}
use helium_os.Vcache.{VCache, p2page_count, Reclaimed, map, page_at, cache_flags}
use helium_os.Vcache.Cells.{if_miss, update₂_hit, update₂_miss, both_tests, first_test, second_test}
use helium_os.Vcache.Valid.{is_absent, is_lazy, IsValid}
use helium_os.Vcache.Map.{placed, absent-placed}
use helium_os.Vcache.Freed.{swept}
use helium_os.Vcache.Sweep.{Swept}
use helium_os.Vcache.Regain.{map-Regained}

module _ (x : Paging) where
  open x use {Entry, new_entry, frame, set_frame}

  -- What reclaiming and one mapping leave of the first table and of the others.
  module _ {v : VCache x} {r : Reclaimed x} (w : Swept x v 0 512 r) (j c f : ℕ)
      (old : is_lazy x v 0 j ≡ true) where
    others_free :
        (k : ℕ)
        → k < 512
        → (is_lazy x v 0 k ≡ false)
          ⊎ ((k ≡ j) ⊎ (is_absent x (placed x (swept x r) 0 j c f) 0 k ≡ true))
    others_free k lk = elim (Bool-cases (is_lazy x v 0 k)) [
      | inr young ↦ inl young
      | inl lazy ↦ elim (ℕ_discrete k j) [
        | yes e ↦ inr (inl e)
        | no ne ↦ inr (
            inr (
              absent-placed x (swept x r) 0 j c f 0 k
              ∙ (if_miss _ false _ (second_test 0 ne) ∙ w.freed k lk lazy)))
      ]
    ]

    rest_kept :
        (s k : ℕ)
        → ((s ≡ 0) × (is_lazy x v 0 k ≡ true)) ⊎ ((placed x (swept x r) 0 j c f).p1 s k ≡ v.p1 s k)
    rest_kept s k = elim (ℕ_discrete 0 s) [
      | no ne ↦ inr (update₂_miss r.cache.p1 0 j _ s k (first_test j k ne) ∙ w.other s k ne)
      | yes e ↦ elim (Bool-cases (is_lazy x v 0 k)) [
        | inl lazy ↦ inl (sym e, lazy)
        | inr young ↦
            let ne : k ≢ j = λ same. absurd (ground (arith, old, young, ap (is_lazy x v 0) same)) in
            inr (
              subst (λ s'. (placed x (swept x r) 0 j c f).p1 s' k ≡ v.p1 s' k) e
                (update₂_miss r.cache.p1 0 j _ 0 k (second_test 0 ne) ∙ w.kept k young))
      ]
    ]

  -- When no table has a free page and the first table has lazy pages, `map` does not panic: it
  -- returns a page of the first table that was lazy, whose entry now holds the frame. Every other
  -- lazy page of that table becomes free, the lazy count becomes 0 and the free count one less than
  -- the lazy count was; every entry whose page was not lazy, and every entry of another table, is
  -- as before, and the invariant is kept.
  pub map-reclaims :
      {v : VCache x}
      → IsValid x v
      → (f s k : ℕ) → f % 0x1000 ≡ 0
      → k < 512
      → ((t : ℕ) → t < p2page_count → v.p2_freecount t ≡ 0)
      → v.p2_lazycount 0 ≢ 0
      → (j : ℕ) × (v' : VCache x) × (map x v f ≡ ok (some (page_at x 0 j), v'))
        × (j < 512)
        × (is_lazy x v 0 j ≡ true)
        × (frame (v'.p1 0 j) ≡ some f)
        × (v'.p2_lazycount 0 ≡ 0)
        × (v'.p2_freecount 0 + 1 ≡ v.p2_lazycount 0)
        × ((is_lazy x v 0 k ≡ false) ⊎ ((k ≡ j) ⊎ (is_absent x v' 0 k ≡ true)))
        × (((s ≡ 0) × (is_lazy x v 0 k ≡ true)) ⊎ (v'.p1 s k ≡ v.p1 s k))
        × IsValid x v'
  map-reclaims {v} i f s k af lk full ne =
      let (j, r, g) = map-Regained x i f full ne in
      let entry : Entry = set_frame new_entry f (cache_flags x) in
      (
        j,
        placed x (swept x r) 0 j (r.lazy_found_count - 1) f,
        g.run,
        g.page,
        g.old,
        ap frame (update₂_hit r.cache.p1 0 j entry 0 j (both_tests 0 j))
            ∙ x.frame-set_frame new_entry f (cache_flags x) af refl,
        refl,
        sym g.less ∙ g.found,
        others_free g.all_free j (r.lazy_found_count - 1) f g.old k lk,
        rest_kept g.all_free j (r.lazy_found_count - 1) f g.old s k,
        g.valid,
      )
