-- ===== src/Vcache/Pair.antt =====
-- Two pages of the cache, taken and given back: `map_many` and `unmap_many` of
-- kernel/src/mem/virt/vcache.rs as the mapper calls them.
use helium_os.Prelude.{
  ℕ, ◌+◌, ◌≤◌, ◌≡◌, refl, ap, ◌∙◌, true, false, ◌&&◌, some, [], ◌∷◌, ◌==◌, arith, ok,
}
use helium_os.Platform.{Paging, Indices}
use helium_os.Vcache.{VCache, page_at, map_many, map_rest, unmap_many}
use helium_os.Vcache.Valid.{is_lazy, IsValid}
use helium_os.Vcache.Cells.{if_miss}
use helium_os.Vcache.Spare.{Held, spare, here, map-Gives}
use native.Mathlib.Decide.{ℕ_discrete}
use helium_os.Vcache.Unmap.{aged, aged-IsValid, lazy-aged, unmap-aged}

module _ (x : Paging) (y : Indices) where
  -- Two pages that are in use, taken from a cache.
  pub record Two (v : VCache x) (t j s k : ℕ) (v' : VCache x) : Type 0 where
    pub valid : IsValid x v'
    pub first : Held x v' t j
    pub second : Held x v' s k
    pub apart : ((t == s) && (j == k)) ≡ false
    pub left : spare x v' + here x t + here x s ≡ spare x v

  -- Two pages are taken, when the first table has two that are not in use.
  pub map_many-Two :
      {v : VCache x}
      → IsValid x v
      → (f : ℕ) → 2 ≤ spare x v
      → (t j s k : ℕ) × (v' : VCache x) × (map_many x y v (f ∷ f ∷ [])
          ≡ ok (some (page_at x t j ∷ page_at x s k ∷ []), v'))
        × Two v t j s k v'
  unfolding map_many map_rest
  map_many-Two {v} i f two =
      let (t, j, v₁, run, g) = map-Gives x i f (λ e. omega (arith, e, two)) in
      let one : here x t ≤ 1 = ground arith in
      let (s, k, v₂, run', g') = map-Gives x g.valid f (λ e. omega (arith, g.left, one, e, two)) in
      (
        t,
        j,
        s,
        k,
        v₂,
        rw (run, run') refl,
        record {
          valid = g'.valid;
          first = g'.others t j g.given;
          second = g'.given;
          apart = apart_sym t j s k (g'.apart t j g.given);
          left = omega (arith, g.left, g'.left);
        },
      )
    where
      apart_sym : (t j s k : ℕ) → ((s == t) && (k == j)) ≡ false → ((t == s) && (j == k)) ≡ false
      apart_sym t j s k e = ground (arith, e)

  spare-aged : (v : VCache x) (t j : ℕ) → spare x (aged x y v t j) ≡ spare x v + here x t
  spare-aged v t j = elim (ℕ_discrete t 0) [
    | yes e ↦ ground (arith, e, ap v.p2_lazycount e)
    | no ne ↦ ground (arith, ne)
  ]

  -- Two pages that are in use are given back.
  pub unmap_many-Two :
      {v : VCache x} {t j s k : ℕ}
      → IsValid x v
      → Held x v t j
      → Held x v s k
      → ((t == s) && (j == k)) ≡ false
      → (v' : VCache x) × (unmap_many x y v (page_at x t j ∷ page_at x s k ∷ []) ≡ ok v')
        × IsValid x v'
        × (spare x v' ≡ spare x v + here x t + here x s)
  unfolding unmap_many
  unmap_many-Two {v} {t} {j} {s} {k} i h h' ne =
      let i₁ = aged-IsValid x y i t j h.table h.page h.present h.young in
      let young : is_lazy x (aged x y v t j) s k ≡ false =
        lazy-aged x y v t j s k ∙ (if_miss _ true _ ne ∙ h'.young) in
      (
        aged x y (aged x y v t j) s k,
        rw (unmap-aged x y i t j h.table h.page, unmap-aged x y i₁ s k h'.table h'.page) refl,
        aged-IsValid x y i₁ s k h'.table h'.page h'.present young,
        spare-aged (aged x y v t j) s k ∙ ap (λ n. n + here x s) (spare-aged v t j),
      )
