-- ===== src/Mapper.antt =====
-- The page-table mapper, kernel/src/mem/virt/mapper.rs and mod.rs, and the functions of
-- kernel/src/mem/mod.rs over it. A table is reached through a page of the cache of temporary
-- mappings (Vcache): a reference into a page is read and written in the frame that the cache maps
-- the page to at that time. The tables of the cache itself are kept in the cache's record, apart
-- from the others.
pub mod Cache
pub mod Step
pub mod Page
pub mod Address
pub mod Refine
pub mod Whole
pub mod Refuse
pub mod Identity
pub mod Header
pub mod Below
pub mod Setup
pub mod Drawn
pub mod Valloc
use helium_os.Prelude.{
  ℕ, zero, suc, ◌+◌, ◌-◌, ◌*◌, ◌/◌, ◌≡◌, Bool, true, false, ◌&&◌, ◌||◌, not, Option, none, some,
  List, [], ◌∷◌, ltb, leb, ◌==◌, if◌then◌else◌, Outcome, ok, panic, ◌>>=◌, ◌>>◌, assert, unwrap,
  checked_sub,
}
use helium_os.Platform.{Align, Paging, Indices, Flags, no_flags}
use helium_os.Phys.{Segment, Allocator, page_size, allocate_frame}
use helium_os.Vcache
use helium_os.Vcache.{
  VCache, kvmspace, start_addr, cache_size, update₂, map_many, remap, unmap_many, p2_index,
}
use helium_os.Tables.{Tables, clear}

pub data KernelMapError : Type 0 where
  null_size : KernelMapError
  managed : KernelMapError
  no_vcache_space : KernelMapError

abbrev pub Result : Type 0
Result = Option KernelMapError

-- The flags of a table on the way to a page.
unfoldable pub table_flags : ℕ → Flags
table_flags page = record {
  present = true;
  writable = true;
  user_accessible = ltb page kvmspace;
  global = false;
}

-- The flags of the page itself: they are the kernel's above `KVMSPACE`, and always present.
unfoldable pub page_flags : ℕ → Flags → Flags
page_flags page fl = record {
  present = true;
  writable = fl.writable;
  user_accessible = if ltb kvmspace page then false else fl.user_accessible;
  global = if ltb kvmspace page then true else fl.global;
}

abbrev is_some : Option ℕ → Bool
is_some none = false
is_some (some page) = true

module _ (y : Paging) (z : Indices) where
  -- The frame that a page of the cache is mapped to.
  unfoldable pub translate : VCache y → ℕ → Outcome ℕ
  unfolding p2_index
  translate v page = do p2i ← p2_index y z page; unwrap (y.frame (v.p1 p2i (z.p1_index page)))

module _ (x : Align) (y : Paging) (z : Indices) where
  open y use {Entry, new_entry, is_unused, flags, frame, set_frame}

  -- The frame allocator, the cache, the root table's frame and the page tables in memory.
  pub record Memory : Type 0 where
    pub allocator : Allocator
    pub cache : VCache y
    pub root : ℕ
    pub tables : Tables y

  -- `alloc_substruct`: entry `i` of the table in frame `f` leads to a new frame; `clear_inplace`
  -- clears it where it lies, while memory is mapped to itself.
  unfoldable pub alloc_substruct : ℕ → ℕ → Flags → Bool → Memory → Outcome Memory
  alloc_substruct f i fl clear_inplace m = allocate_frame x m.allocator >>= (λ r. elim r.0 [
    | none ↦ panic
    | some g ↦
        let t = if clear_inplace then clear y m.tables g else m.tables in
        ok (record m { allocator = r.1; tables = update₂ t f i (set_frame new_entry g fl) })
  ])

  -- The end of `ensure_allocated`: the table is mapped at `tmp`, and cleared through that page if
  -- it is new.
  unfoldable pub show_table : Bool → ℕ → ℕ → ℕ → Memory → Outcome Memory
  unfolding translate
  show_table created f i tmp m = do
    g ← unwrap (frame (m.tables f i))
    (done, cache) ← remap y z m.cache tmp g
    assert done
    shown ← translate y z cache tmp
    ok (record m { cache = cache; tables = if created then clear y m.tables shown else m.tables })

  -- `ensure_allocated`, for entry `i` of the table in frame `f`; the table that the entry leads to
  -- can then be reached at `tmp`.
  unfoldable pub ensure_allocated : ℕ → ℕ → ℕ → ℕ → Memory → Outcome Memory
  unfolding alloc_substruct show_table
  ensure_allocated f i page tmp m =
      if is_unused (m.tables f i)
      then (alloc_substruct f i (table_flags page) false m >>= (λ m'. show_table true f i tmp m'))
      else show_table false f i tmp m

  -- The body of the loop of `map`: the tables of the levels 3 and 1 are reached at `tmp0`, that of
  -- level 2 at `tmp1`.
  unfoldable pub map_page : ℕ → ℕ → Flags → ℕ → ℕ → Memory → Outcome Memory
  unfolding ensure_allocated translate page_flags
  map_page page physframe fl tmp0 tmp1 m = do
    m₁ ← ensure_allocated m.root (z.p4_index page) page tmp0 m
    p3 ← translate y z m₁.cache tmp0
    m₂ ← ensure_allocated p3 (z.p3_index page) page tmp1 m₁
    p2 ← translate y z m₂.cache tmp1
    m₃ ← ensure_allocated p2 (z.p2_index page) page tmp0 m₂
    p1 ← translate y z m₃.cache tmp0
    let old = m₃.tables p1 (z.p1_index page)
    ok (record m₃ {
      tables =
          update₂ m₃.tables p1 (z.p1_index page) (set_frame old physframe (page_flags page fl));
    })

  -- The loop of `map`, from a page on: the addresses have to be such as the types of addresses
  -- admit. The flags change from round to round.
  unfoldable pub map_pages : ℕ → ℕ → ℕ → Flags → ℕ → ℕ → Memory → Outcome Memory
  unfolding map_page
  map_pages zero page physframe fl tmp0 tmp1 m = ok m
  map_pages (suc n) page physframe fl tmp0 tmp1 m =
      assert (z.is_canonical page && z.is_physical physframe)
      >> map_page page physframe fl tmp0 tmp1 m
      >>= (λ m'.
          map_pages n (page + page_size) (physframe + page_size) (page_flags page fl) tmp0 tmp1 m')

  -- `map` with the two pages that it got from the cache.
  unfoldable pub map_through :
      ℕ → ℕ → ℕ → Flags → Memory → Option (List ℕ) → Outcome (Result × Memory)
  map_through page physframe num_pages fl m none = ok (some no_vcache_space, m)
  map_through page physframe num_pages fl m (some []) = panic
  map_through page physframe num_pages fl m (some (tmp0 ∷ [])) = panic
  map_through page physframe num_pages fl m (some (tmp0 ∷ tmp1 ∷ rest)) = do
    m' ← map_pages num_pages page physframe fl tmp0 tmp1 m
    cache ← unmap_many y z m'.cache (tmp0 ∷ tmp1 ∷ rest)
    ok (none, record m' { cache = cache })

  -- `KernelMapper::map`
  unfoldable pub map : ℕ → ℕ → ℕ → Flags → Memory → Outcome (Result × Memory)
  unfolding map_through
  map page physframe size fl m =
      if size == 0
      then ok (some null_size, m)
      else (if leb start_addr page && ltb page (start_addr + cache_size)
          then ok (some managed, m)
          else (map_many y z m.cache (0 ∷ 0 ∷ []) >>= (λ (pages, cache).
              map_through page physframe (x.align_up size page_size / page_size) fl
                (record m { cache = cache }) pages)))

  -- `init`: the root table is mapped in the cache, for good.
  unfoldable pub init : ℕ → Memory → Outcome Memory
  init p4_frame m = do
    (page, cache) ← Vcache.map y m.cache p4_frame
    assert (is_some page)
    ok (record m { root = p4_frame; cache = cache })

  -- `remove_identity`: the lower half of the root table is filled with zeros.
  unfoldable pub remove_identity : Memory → Memory
  remove_identity m = record m {
    tables = λ f i. if (f == m.root) && ltb i 256 then new_entry else m.tables f i;
  }

  -- `vmap_many`
  unfoldable pub vmap_many : ℕ → List ℕ → Flags → Memory → Outcome Memory
  unfolding map
  vmap_many page [] fl m = ok m
  vmap_many page (f ∷ fs) fl m = do
    (result, m') ← map page f page_size fl m
    elim result [ none ↦ vmap_many (page + page_size) fs fl m' | some e ↦ panic ]

  -- `valloc`: pages on frames of the allocator.
  unfoldable pub valloc : ℕ → ℕ → Flags → Memory → Outcome Memory
  unfolding map
  valloc page zero fl m = ok m
  valloc page (suc n) fl m = allocate_frame x m.allocator >>= (λ r. elim r.0 [
    | none ↦ panic
    | some g ↦
        map page g page_size fl (record m { allocator = r.1 })
        >>= (λ q. elim q.0 [ none ↦ valloc (page + page_size) n fl q.1 | some e ↦ panic ])
  ])

  -- `valloc_size`
  unfoldable pub valloc_size : ℕ → ℕ → Flags → Memory → Outcome Memory
  unfolding valloc
  valloc_size page nbytes fl m = valloc page (x.align_up nbytes page_size / page_size) fl m

  -- `valloc_ktable`, for `n` items of a size.
  unfoldable pub valloc_ktable : ℕ → ℕ → ℕ → Memory → Outcome Memory
  unfolding valloc_size
  valloc_ktable item_size vadr n m =
      assert (vadr - x.align_down vadr page_size == 0)
      >> valloc_size vadr (n * item_size) (record no_flags { writable = true }) m
