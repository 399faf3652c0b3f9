-- ===== src/Mapper/Setup.antt =====
-- `init` of kernel/src/mem/virt/vcache.rs: the tables of the cache of temporary mappings are made
-- while memory is mapped to itself, and the cache maps its own last-level tables.
pub mod Window
pub mod Shown
pub mod Grown
pub mod Filled
pub mod Ready
pub mod Boot
use helium_os.Prelude.{
  ℕ, zero, suc, ◌+◌, ◌*◌, ◌%◌, ◌≡◌, Bool, true, false, ◌==◌, if◌then◌else◌, none, some, Outcome, ok,
  panic, ◌>>=◌, ◌>>◌, assert, unwrap,
}
use helium_os.Platform.{Align, Paging, Indices, Flags}
use helium_os.Phys.{page_size}
use helium_os.Vcache
use helium_os.Vcache.{VCache, start_addr, p2page_count}
use helium_os.Mapper.{Memory, alloc_substruct}

-- The flags of the tables of the cache.
abbrev pub window_flags : Flags
window_flags = record { present = true; writable = true; user_accessible = false; global = false }

module _ (x : Align) (y : Paging) (z : Indices) where
  open y use {Entry, is_unused, frame}

  -- An entry gets a table, unless it has one.
  unfoldable pub ensure_table : ℕ → ℕ → Memory x y z → Outcome (Memory x y z)
  unfolding alloc_substruct
  ensure_table f i m =
      if is_unused (m.tables f i) then alloc_substruct x y z f i window_flags true m else ok m

  -- The loop that makes the last-level tables under the table in frame `p2`, from entry `i` on with
  -- `n` entries left.
  unfoldable pub make_p1_tables : ℕ → ℕ → ℕ → Memory x y z → Outcome (Memory x y z)
  unfolding alloc_substruct
  make_p1_tables zero i p2 m = ok m
  make_p1_tables (suc n) i p2 m =
      assert (is_unused (m.tables p2 i))
      >> alloc_substruct x y z p2 i window_flags true m
      >>= (λ m'. make_p1_tables n (i + 1) p2 m')

  -- The first part of `init`: the tables of the window, and the frame of that of level 2.
  unfoldable pub make_tables : Memory x y z → Outcome (ℕ × Memory x y z)
  unfolding ensure_table make_p1_tables
  make_tables m = do
    m₁ ← ensure_table m.root (z.p4_index start_addr) m
    p3 ← unwrap (frame (m₁.tables m.root (z.p4_index start_addr)))
    m₂ ← ensure_table p3 (z.p3_index start_addr) m₁
    p2 ← unwrap (frame (m₂.tables p3 (z.p3_index start_addr)))
    m₃ ← make_p1_tables p2page_count 0 p2 m₂
    ok (p2, m₃)

  -- The second loop: the cache maps the frames from `p1_frame` on, from table `i` on with `n`
  -- tables left, and has to give the pages of the window in their order.
  unfoldable pub map_tables : ℕ → ℕ → ℕ → VCache y → Outcome (VCache y)
  map_tables zero i p1_frame v = ok v
  map_tables (suc n) i p1_frame v = do
    let f = p1_frame + i * 512 * 8
    assert (z.is_physical f)
    assert (f % page_size == 0)
    (found, v') ← Vcache.map y v f
    page ← unwrap found
    assert (page == start_addr + page_size * i)
    map_tables n (i + 1) p1_frame v'

  -- The second part of `init`. The first cache is over the first last-level table alone, where it
  -- lies; the cache that stays is over the pages at `START_ADDR`, of which page `i` is mapped to
  -- the frame `i` pages after that of the first table.
  unfoldable pub make_cache : ℕ → Memory x y z → Outcome (Memory x y z)
  unfolding map_tables
  make_cache p2 m = do
    p1_frame ← unwrap (frame (m.tables p2 0))
    cache ← map_tables p2page_count 0 p1_frame (Vcache.new y 1 (λ i j. m.tables p1_frame j))
    let p1 : ℕ → ℕ → Entry =
        λ i j. if i == 0 then cache.p1 0 j else m.tables (p1_frame + i * page_size) j
    ok (record m { cache = Vcache.renew y cache p2page_count p1 })

  -- `init`
  unfoldable pub init : Memory x y z → Outcome (Memory x y z)
  unfolding make_tables make_cache
  init m = make_tables m >>= (λ (p2, m'). make_cache p2 m')
