-- ===== src/Vcache/Spare.antt =====
-- `VCache::map` and `unmap`, kernel/src/mem/virt/vcache.rs, over many calls: the pages of the first
-- table that are not in use, free or lazy, are what keeps the cache from running out.
use helium_os.Prelude.{
  ℕ, ◌+◌, ◌-◌, ◌<◌, ◌≡◌, ◌≢◌, ◌⊎◌, inl, inr, ap, sym, ◌∙◌, true, false, ◌&&◌, not, some, ◌==◌,
  if◌then◌else◌, arith, ok, Bool-cases,
}
use native.Mathlib.Decide.{ℕ_discrete}
use helium_os.Platform.{Paging}
use helium_os.Vcache.{VCache, Reclaimed, is_present, p2page_count, page_at, map}
use helium_os.Vcache.Valid.{is_absent, is_lazy, IsValid}
use helium_os.Vcache.Cells.{if_hit, if_miss, both_tests, both_eq}
use helium_os.Vcache.Map.{placed, placed-IsValid, absent-placed, lazy-placed, scan_all, map-placed}
use helium_os.Vcache.Freed.{swept}
use helium_os.Vcache.Regain.{Regained, map-Regained}

module _ (x : Paging) where
  open x use {Entry, flags}

  -- A page that is in use.
  pub record Held (v : VCache x) (t j : ℕ) : Type 0 where
    pub table : t < p2page_count
    pub page : j < 512
    pub present : is_present x v t j ≡ true
    pub young : is_lazy x v t j ≡ false

  -- The pages of the first table that are not in use.
  abbrev pub spare : VCache x → ℕ
  spare v = v.p2_freecount 0 + v.p2_lazycount 0

  -- One for a page of the first table.
  abbrev pub here : ℕ → ℕ
  here t = if t == 0 then 1 else 0

  -- The page `(t, j)` was not in use before and is now, and the others in use still are.
  pub record Gives (v : VCache x) (t j : ℕ) (v' : VCache x) : Type 0 where
    pub valid : IsValid x v'
    pub given : Held v' t j
    pub left : spare v' + here t ≡ spare v
    pub apart : (s k : ℕ) → Held v s k → ((t == s) && (j == k)) ≡ false
    pub others : (s k : ℕ) → Held v s k → Held v' s k

  placed-Held :
      (v : VCache x) (t j c f : ℕ) → t < p2page_count → j < 512 → Held (placed x v t j c f) t j
  placed-Held v t j c f lt lj = record {
    table = lt;
    page = lj;
    present =
        let e : is_absent x (placed x v t j c f) t j ≡ false =
          absent-placed x v t j c f t j ∙ if_hit _ false _ (both_tests t j) in
        ground (arith, e);
    young = lazy-placed x v t j c f t j ∙ if_hit _ false _ (both_tests t j);
  }

  -- A page in use, and another page that is given away.
  Held-placed :
      (v : VCache x) {s k : ℕ} (t j c f : ℕ)
      → is_present x v s k ≡ true
      → is_lazy x v s k ≡ false
      → s < p2page_count
      → k < 512
      → ((t == s) && (j == k)) ≡ false
      → Held (placed x v t j c f) s k
  Held-placed v {s} {k} t j c f present young ls lk miss = record {
    table = ls;
    page = lk;
    present =
        let e : is_absent x (placed x v t j c f) s k ≡ false =
          absent-placed x v t j c f s k ∙ (if_miss _ false _ miss ∙ ap not present) in
        ground (arith, e);
    young = lazy-placed x v t j c f s k ∙ (if_miss _ false _ miss ∙ young);
  }

  -- A page in use is neither free nor lazy.
  not_free :
      {v : VCache x} (t j s k : ℕ)
      → (is_present x v t j ≡ false) ⊎ (is_lazy x v t j ≡ true)
      → Held v s k
      → ((t == s) && (j == k)) ≡ false
  not_free {v} t j s k idle h = elim (Bool-cases ((t == s) && (j == k))) [
    | inr miss ↦ miss
    | inl hit ↦
        let (e, e') = both_eq t j s k hit in
        let present : is_present x v t j ≡ is_present x v s k =
          ap (λ n. is_present x v n j) e ∙ ap (is_present x v s) e' in
        let lazy : is_lazy x v t j ≡ is_lazy x v s k =
          ap (λ n. is_lazy x v n j) e ∙ ap (is_lazy x v s) e' in
        elim idle [
          | inl free ↦ absurd (ground (arith, free, present, h.present))
          | inr old ↦ absurd (ground (arith, old, lazy, h.young))
        ]
  ]

  placed-Gives :
      {v : VCache x} (t j c f : ℕ)
      → IsValid x (placed x v t j c f)
      → t < p2page_count
      → j < 512
      → is_present x v t j ≡ false
      → v.p2_freecount t ≡ c + 1
      → Gives v t j (placed x v t j c f)
  placed-Gives {v} t j c f valid lt lj free e = record {
    valid = valid;
    given = placed-Held v t j c f lt lj;
    left = elim (ℕ_discrete t 0) [
      | yes z ↦ ground (arith, z, e, ap v.p2_freecount z)
      | no ne ↦ ground (arith, ne)
    ];
    apart = λ s k h. not_free t j s k (inl free) h;
    others = λ s k h.
        Held-placed v t j c f h.present h.young h.table h.page (not_free t j s k (inl free) h);
  }

  module _ {v : VCache x} {f j : ℕ} {r : Reclaimed x} (g : Regained x v f j r) where
    -- Sweeping leaves the pages in use.
    swept_present : (s k : ℕ) → Held v s k → is_present x (swept x r) s k ≡ true
    swept_present s k h = elim (ℕ_discrete 0 s) [
      | no ne ↦ ap (λ (e : Entry). (flags e).present) (g.all_free.other s k ne) ∙ h.present
      | yes e ↦
          ap (λ n. is_present x (swept x r) n k) (sym e)
          ∙ (ap (λ (e : Entry). (flags e).present)
                (g.all_free.kept k (ap (λ n. is_lazy x v n k) e ∙ h.young))
              ∙ (ap (λ n. is_present x v n k) e ∙ h.present))
    ]

    swept_young : (s k : ℕ) → Held v s k → is_lazy x (swept x r) s k ≡ false
    swept_young s k h = elim (ℕ_discrete 0 s) [
      | no ne ↦ ap (λ (a : ℕ). not (a == 0)) (g.all_free.other_age s k ne) ∙ h.young
      | yes e ↦
          ap (λ n. is_lazy x (swept x r) n k) (sym e)
          ∙ ap (λ (a : ℕ). not (a == 0)) (g.all_free.behind k h.page)
    ]

    Regained-Gives :
        v.p2_freecount 0 ≡ 0 → Gives v 0 j (placed x (swept x r) 0 j (r.lazy_found_count - 1) f)
    Regained-Gives full = record {
      valid = g.valid;
      given = placed-Held (swept x r) 0 j (r.lazy_found_count - 1) f (omega arith) g.page;
      left = omega (arith, full, g.less, g.found);
      apart = λ s k h. not_free 0 j s k (inr g.old) h;
      others = λ s k h.
          Held-placed (swept x r) 0 j (r.lazy_found_count - 1) f (swept_present s k h)
            (swept_young s k h) h.table h.page (not_free 0 j s k (inr g.old) h);
    }

  -- While the first table has a page that is not in use, `map` gives a page.
  pub map-Gives :
      {v : VCache x}
      → IsValid x v
      → (f : ℕ) → spare v ≢ 0
      → (t j : ℕ) × (v' : VCache x) × (map x v f ≡ ok (some (page_at x t j), v')) × Gives v t j v'
  map-Gives {v} i f ne = elim (scan_all x v) [
    | inr (table, _, lt, some_free) ↦
        let (t, j, run, lt', lj, free, left) = map-placed x i f table lt some_free in
        let e : v.p2_freecount t ≡ v.p2_freecount t - 1 + 1 = omega (arith, left) in
        (
          t,
          j,
          placed x v t j (v.p2_freecount t - 1) f,
          run,
          placed-Gives t j (v.p2_freecount t - 1) f
              (placed-IsValid x i t j (v.p2_freecount t - 1) f lt' lj free e) lt' lj free e,
        )
    | inl (_, full) ↦
        let none_free : v.p2_freecount 0 ≡ 0 = full 0 (omega arith) in
        let (j, r, g) = map-Regained x i f full (λ e. ne (omega (arith, none_free, e))) in
        (
          0,
          j,
          placed x (swept x r) 0 j (r.lazy_found_count - 1) f,
          g.run,
          Regained-Gives g none_free,
        )
  ]
