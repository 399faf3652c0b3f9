-- ===== src/Tests/Cache.antt =====
-- The cache of temporary mappings.
use native.Mathlib.Decide.{ℕ_discrete}
use helium_os.Vcache.Cells.{ne_test}
use helium_os.Prelude.{
  ℕ, ◌+◌, ◌<◌, ◌≡◌, ◌⊎◌, refl, true, false, some, ◌==◌, ◌&&◌, ◌||◌, if◌then◌else◌, arith, ok, panic,
}
use helium_os.Platform.{no_flags}
use helium_os.Platform.Instance.{Pte, frame_of, paging, indices}
use helium_os.Vcache.{VCache, map, unmap, page_at, p2page_count, is_present, cache_flags}
use helium_os.Vcache.Count.{count}
use helium_os.Vcache.Valid.{IsValid, is_lazy, is_absent}
use helium_os.Vcache.Map.{map-free}
use helium_os.Vcache.Reclaim.{map-exhausted}
use helium_os.Vcache.Reused.{map-reclaims}
use helium_os.Vcache.Unmap.{unmap-IsValid}

abbrev absent : Pte
absent = record { frame = 0; flags = no_flags }

-- A cache in which the first page of every table is mapped.
abbrev pub cache : VCache paging
cache = record {
  p1_len = 4;
  p1 = λ i j. if j == 0 then record { frame = 0x7000; flags = cache_flags paging } else absent;
  p2_freecount = λ i. 511;
  p2_lazycount = λ i. 0;
  p1_age = λ i j. 0;
}

-- A cache with no free page, whose tables have lazy pages except for the first.
abbrev full : VCache paging
full = record {
  p1_len = 4;
  p1 = λ i j. record { frame = 0x7000; flags = cache_flags paging };
  p2_freecount = λ i. 0;
  p2_lazycount = λ i. if i == 0 then 0 else 1;
  p1_age = λ i j. if i == 0 then 0 else (if j == 0 then 1 else 0);
}

-- A cache with no free page, whose first table has two lazy pages.
abbrev spent : VCache paging
spent = record {
  p1_len = 4;
  p1 = λ i j. record { frame = 0x7000; flags = cache_flags paging };
  p2_freecount = λ i. 0;
  p2_lazycount = λ i. if i == 0 then 2 else 0;
  p1_age = λ i j. if (i == 0) && ((j == 7) || (j == 40)) then 1 else 0;
}

spent-IsValid : IsValid paging spent
unfolding count
spent-IsValid = record {
  tables = refl;
  free_count = λ t h. refl;
  lazy_count =
      λ t h. elim (ℕ_discrete t 0) [ yes e ↦ rw e refl | no ne ↦ rw (ne_test t 0 ne) refl ];
  lazy_present = λ t j h l e. refl;
}

pub cache-IsValid : IsValid paging cache
unfolding count
cache-IsValid = record {
  tables = refl;
  free_count = λ t h. refl;
  lazy_count = λ t h. refl;
  lazy_present = λ t j h l e. absurd (ground (arith, e));
}

map-free_example :
    (t j : ℕ) × (v' : VCache paging) × (map paging cache 0x9000
      ≡ ok (some (page_at paging t j), v'))
    × (t < p2page_count)
    × (j < 512)
    × (is_present paging cache t j ≡ false)
    × (frame_of (v'.p1 t j) ≡ some 0x9000)
    × ((v'.p1 t j).flags ≡ cache_flags paging)
    × (((2 ≡ t) × (0 ≡ j)) ⊎ (v'.p1 2 0 ≡ cache.p1 2 0))
    × IsValid paging v'
map-free_example =
    map-free paging cache-IsValid 0x9000 1 2 0 refl (omega arith) (λ e. ground (arith, e))

map-exhausted_example : map paging full 0x9000 ≡ panic
map-exhausted_example = map-exhausted paging full 0x9000 (λ t h. refl) refl

map-reclaims_example :
    (j : ℕ) × (v' : VCache paging) × (map paging spent 0x9000 ≡ ok (some (page_at paging 0 j), v'))
    × (j < 512)
    × (is_lazy paging spent 0 j ≡ true)
    × (frame_of (v'.p1 0 j) ≡ some 0x9000)
    × (v'.p2_lazycount 0 ≡ 0)
    × (v'.p2_freecount 0 + 1 ≡ spent.p2_lazycount 0)
    × ((is_lazy paging spent 0 7 ≡ false) ⊎ ((7 ≡ j) ⊎ (is_absent paging v' 0 7 ≡ true)))
    × ((◌≡◌ {A = ℕ} 1 0 × (is_lazy paging spent 0 7 ≡ true)) ⊎ (v'.p1 1 7 ≡ spent.p1 1 7))
    × IsValid paging v'
map-reclaims_example =
    map-reclaims paging spent-IsValid 0x9000 1 7 refl (omega arith) (λ t lt. refl) (omega arith)

unmap-IsValid_example :
    (v' : VCache paging) × (unmap paging indices cache (page_at paging 1 0) ≡ ok v')
    × (is_lazy paging v' 1 0 ≡ true)
    × (v'.p2_lazycount 1 ≡ cache.p2_lazycount 1 + 1)
    × (v'.p1 0 3 ≡ cache.p1 0 3)
    × IsValid paging v'
unmap-IsValid_example =
    unmap-IsValid paging indices cache-IsValid 1 0 0 3 (omega arith) (omega arith) refl refl
