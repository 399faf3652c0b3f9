-- ===== src/Vcache.antt =====
-- The cache of temporary kernel mappings, kernel/src/mem/virt/vcache.rs: a window of 2048 pages at
-- `START_ADDR`, over four page tables that are themselves mapped in it.
-- A fixed array is a function of the index; an index past its end is a panic.
pub mod Cells
pub mod Count
pub mod Valid
pub mod Map
pub mod Reclaim
pub mod Unmap
pub mod Pair
pub mod Sweep
pub mod Freed
pub mod Regain
pub mod Reused
pub mod Spare
use helium_os.Prelude.{
  ℕ, zero, suc, ◌+◌, ◌-◌, ◌*◌, ◌/◌, ◌^◌, ◌≡◌, Bool, true, false, ◌&&◌, ◌||◌, not, Option, none,
  some, List, [], ◌∷◌, ◌++◌, ltb, leb, ◌==◌, if◌then◌else◌, Outcome, ok, panic, ◌>>=◌, ◌>>◌, assert,
  unwrap, checked_add, checked_sub,
}
use helium_os.Platform.{Paging, Indices, Flags, no_flags}

-- `START_ADDR` is `KVMSPACE`.
abbrev pub kvmspace : ℕ
kvmspace = 0xFFFF800000000000

abbrev pub start_addr : ℕ
start_addr = kvmspace

abbrev pub page_size : ℕ
page_size = 0x1000

-- `P1PAGE_COUNT / 512` and `P1PAGE_COUNT * PAGE_SIZE`
abbrev pub p2page_count : ℕ
p2page_count = 2048 / 512

abbrev pub cache_size : ℕ
cache_size = 2048 * page_size

-- One cell of an array, and of an array of rows, written.
abbrev pub update {ℓ} : {A : Type ℓ} → (ℕ → A) → ℕ → A → ℕ → A
update f i v j = if i == j then v else f j

abbrev pub update₂ {ℓ} : {A : Type ℓ} → (ℕ → ℕ → A) → ℕ → ℕ → A → ℕ → ℕ → A
update₂ f i j v k l = if (i == k) && (j == l) then v else f k l

-- `frame_result.is_ok_and(|frame| frame == physframe)`
abbrev pub holds_frame : Option ℕ → ℕ → Bool
holds_frame none f = false
holds_frame (some g) f = g == f

module _ (x : Paging) where
  open x use {Entry, new_entry, is_unused, flags, frame, set_frame, set_flags}

  -- `VCache` with its `VCacheState`; `p1_len` is the length of the slice `p1`.
  pub record VCache : Type 0 where
    pub p1_len : ℕ
    pub p1 : ℕ → ℕ → Entry
    pub p2_freecount : ℕ → ℕ
    pub p2_lazycount : ℕ → ℕ
    pub p1_age : ℕ → ℕ → ℕ

  -- `VCacheState::new`, over a slice of tables.
  unfoldable pub new : ℕ → (ℕ → ℕ → Entry) → VCache
  new len p1 = record {
    p1_len = len;
    p1 = p1;
    p2_freecount = λ i. 512;
    p2_lazycount = λ i. 0;
    p1_age = λ i j. 0;
  }

  -- `VCache::renew`
  unfoldable pub renew : VCache → ℕ → (ℕ → ℕ → Entry) → VCache
  renew v len p1 = record v { p1_len = len; p1 = p1 }

  -- The flags of a mapping in the cache.
  abbrev pub cache_flags : Flags
  cache_flags = record { present = true; writable = true; user_accessible = false; global = true }

  abbrev pub is_present : VCache → ℕ → ℕ → Bool
  is_present v p2i p1i = (flags (v.p1 p2i p1i)).present

  -- The first loop of `map`, from table `i` on with `n` tables left: the lazy count of the first
  -- table that it looks at, and the first table with a free page.
  unfoldable pub scan : VCache → ℕ → ℕ → Option ℕ → Option ℕ × Option ℕ
  scan v zero i lazy_pages_count = (lazy_pages_count, none)
  scan v (suc n) i lazy_pages_count =
      let seen : Option ℕ = elim lazy_pages_count [
        | none ↦ some (v.p2_lazycount i)
        | some c ↦ some c
      ] in
      let rest = scan v n (i + 1) seen in if v.p2_freecount i == 0 then rest else (seen, some i)

  -- The first table with a lazy page.
  unfoldable pub find_lazy : VCache → ℕ → ℕ → Option ℕ
  find_lazy v zero i = none
  find_lazy v (suc n) i =
      let rest = find_lazy v n (i + 1) in if v.p2_lazycount i == 0 then rest else some i

  -- What the loop that reclaims lazy pages carries.
  pub record Reclaimed : Type 0 where
    pub cache : VCache
    pub lazy_found_count : ℕ
    pub p1index : Option ℕ

  -- One lazy page becomes free: its age is cleared, and its entry is no longer present.
  unfoldable pub reclaim_page : ℕ → ℕ → Reclaimed → Reclaimed
  reclaim_page p2i p1i r = record {
    cache = record v {
      p1_age = update₂ v.p1_age p2i p1i 0;
      p1 =
          update₂ v.p1 p2i p1i
            (set_flags (v.p1 p2i p1i) (record (flags (v.p1 p2i p1i)) { present = false }));
    };
    lazy_found_count = r.lazy_found_count + 1;
    p1index = some p1i;
  }
    where
      v : VCache
      v = r.cache

  -- The loop over the pages of table `p2i`, from `p1i` on with `n` pages left. It stops when it has
  -- found `limit` lazy pages.
  unfoldable pub reclaim : ℕ → ℕ → ℕ → ℕ → Reclaimed → Outcome Reclaimed
  reclaim p2i limit zero p1i r = ok r
  reclaim p2i limit (suc n) p1i r =
      let skip = reclaim p2i limit n (p1i + 1) r in
      let take = reclaim p2i limit n (p1i + 1) (reclaim_page p2i p1i r) in
      if leb limit r.lazy_found_count
      then ok r
      else if r.cache.p1_age p2i p1i == 0
      then skip
      else if ltb p2i r.cache.p1_len
      then take
      else panic

  -- The second pass of `map`, when no table has a free page.
  unfoldable pub reclaim_table : VCache → ℕ → Outcome (Option ℕ × Option ℕ × VCache)
  reclaim_table v limit = elim (find_lazy v p2page_count 0) [
    | none ↦ ok (none, none, v)
    | some p2i ↦
        reclaim p2i limit 512 0 (record { cache = v; lazy_found_count = 0; p1index = none })
        >>= (λ r. ok (
          some p2i,
          r.p1index,
          record r.cache {
            p2_freecount = update r.cache.p2_freecount p2i r.lazy_found_count;
            p2_lazycount = update r.cache.p2_lazycount p2i 0;
          },
        ))
  ]

  -- The first page of table `p2i` whose entry is not present.
  unfoldable pub find_absent : VCache → ℕ → ℕ → ℕ → Option ℕ
  find_absent v p2i zero p1i = none
  find_absent v p2i (suc n) p1i =
      let rest = find_absent v p2i n (p1i + 1) in if is_present v p2i p1i then rest else some p1i

  -- The page for an entry: `START_ADDR + PAGE_SIZE * (p2index * 512 + p1index)`
  abbrev pub page_at : ℕ → ℕ → ℕ
  page_at p2index p1index = start_addr + page_size * (p2index * 512 + p1index)

  -- The entry is set up for the frame.
  abbrev pub install : VCache → ℕ → ℕ → ℕ → VCache
  install v p2index p1index physframe = record v {
    p1 = update₂ v.p1 p2index p1index (set_frame new_entry physframe cache_flags);
  }

  -- The end of `map`: the free count goes down, a page is picked unless reclaiming picked one, and
  -- its entry is set up.
  unfoldable pub fill : VCache → Option ℕ → Option ℕ → ℕ → Outcome (Option ℕ × VCache)
  fill v found p1found physframe = do
    p2index ← unwrap found
    count ← checked_sub (v.p2_freecount p2index) 1
    let v = record v { p2_freecount = update v.p2_freecount p2index count }
    assert (ltb p2index v.p1_len)
    elim p1found [
      | some p1index ↦ ok (some (page_at p2index p1index), install v p2index p1index physframe)
      | none ↦ do
        p1index ← unwrap (find_absent v p2index 512 0)
        let v = record v { p1_age = update₂ v.p1_age p2index p1index 0 }
        ok (some (page_at p2index p1index), install v p2index p1index physframe)
    ]

  -- The rest of `map` after its first loop; without a free page lazy pages are reclaimed.
  abbrev pub after_scan : VCache → Option ℕ → Option ℕ → ℕ → Outcome (Option ℕ × VCache)
  after_scan v (some i) lazy_pages_count physframe = fill v (some i) none physframe
  after_scan v none none physframe = ok (none, v)
  after_scan v none (some limit) physframe =
      reclaim_table v limit >>= (λ (p2i, p1i, v'). fill v' p2i p1i physframe)

  -- `VCache::map`; `none` is `Err(())`.
  unfoldable pub map : VCache → ℕ → Outcome (Option ℕ × VCache)
  map v physframe =
      let (lazy_pages_count, p2index) = scan v p2page_count 0 none in
      after_scan v p2index lazy_pages_count physframe

  module _ (y : Indices) where
    -- `VCache::p2_index`
    unfoldable pub p2_index : ℕ → Outcome ℕ
    p2_index page = checked_sub (y.p2_index page) (y.p2_index start_addr)

    -- `VCache::unmap`: the page becomes lazy.
    unfoldable pub unmap : VCache → ℕ → Outcome VCache
    unmap v page = do
      target_p2i ← p2_index page
      assert (ltb target_p2i p2page_count)
      count ← checked_add 16 (v.p2_lazycount target_p2i) 1
      ok (record v {
        p1_age = update₂ v.p1_age target_p2i (y.p1_index page) 1;
        p2_lazycount = update v.p2_lazycount target_p2i count;
      })

    -- `VCache::unmap_many`
    unfoldable pub unmap_many : VCache → List ℕ → Outcome VCache
    unmap_many v [] = ok v
    unmap_many v (p ∷ ps) = unmap v p >>= (λ v'. unmap_many v' ps)

    -- The loop of `VCache::map_many`: when a page cannot be had, those mapped before are unmapped.
    unfoldable pub map_rest : VCache → List ℕ → List ℕ → Outcome (Option (List ℕ) × VCache)
    map_rest v done [] = ok (some done, v)
    map_rest v done (f ∷ fs) = map v f >>= (λ (page, v'). elim page [
      | some p ↦ map_rest v' (done ++ (p ∷ [])) fs
      | none ↦ unmap_many v' done >>= (λ v''. ok (none, v''))
    ])

    unfoldable pub map_many : VCache → List ℕ → Outcome (Option (List ℕ) × VCache)
    map_many v frames = map_rest v [] frames

    -- `VCache::remap`; the flag is false for `Err(())`.
    unfoldable pub remap : VCache → ℕ → ℕ → Outcome (Bool × VCache)
    remap v page physframe =
        if ltb page start_addr || leb (start_addr + cache_size) page then ok (false, v) else do
          target_p2i ← p2_index page
          assert (ltb target_p2i v.p1_len)
          let e = v.p1 target_p2i (y.p1_index page)
          if not (is_unused e) && holds_frame (frame e) physframe
              then ok (true, v)
              else ok (true, install v target_p2i (y.p1_index page) physframe)
