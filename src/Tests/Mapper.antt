-- ===== src/Tests/Mapper.antt =====
-- The mapper over an empty root table, the cache and the three pages of the other tests.
use native.Mathlib.Decide.{ℕ_discrete}
use helium_os.Prelude.{
  ℕ, ◌+◌, ◌*◌, ◌/◌, ◌%◌, ◌^◌, ◌≤◌, ◌<◌, ◌≡◌, ◌⊎◌, inl, refl, ap, true, none, some, [], ◌∷◌, ◌==◌,
  if◌then◌else◌, arith, ok, panic,
}
use helium_os.Platform.{Flags, no_flags}
use helium_os.Platform.Instance.{align, paging, indices}
use helium_os.Phys.{in_range}
use helium_os.Phys.Valid.{frame_used}
use helium_os.Tables.Link.{IsTree}
use helium_os.Tables.Insert.Result.{Exhausted}
use helium_os.Mapper.{Memory, null_size, managed, no_vcache_space, map, remove_identity, valloc}
use helium_os.Mapper.Page.{lookup}
use helium_os.Mapper.Identity.{remove_identity-lookup}
use helium_os.Vcache.{start_addr, cache_size, map_many}
use helium_os.Mapper.Whole.{IsReady, Maps, map-Maps, pages_of}
use helium_os.Mapper.Header.{map_header, HeaderMapped, map_header-HeaderMapped}
use helium_os.Mapper.Valloc.{OnNew}
use helium_os.Mapper.Valloc.Range.{valloc-OnNew}
use helium_os.Mapper.Refuse.{map-refused}
use helium_os.Tests.Memory.{allocator, empty, allocator-IsValid}
use helium_os.Tests.Cache.{cache, cache-IsValid}

abbrev pub memory : Memory align paging indices
memory = record {
  allocator = allocator empty;
  cache = cache;
  root = 0x5000;
  tables = λ f i. record { frame = 0; flags = no_flags };
}

abbrev user : Flags
user = record no_flags { user_accessible = true; writable = true }

abbrev level : ℕ → ℕ
level f = if f == 0x5000 then 4 else 0

root_used : frame_used (allocator empty).segments 0x5000 ≡ true
unfolding frame_used in_range
root_used = refl

memory-IsTree : IsTree paging level memory.tables memory.allocator
unfolding frame_used
memory-IsTree = record {
  free = λ f a e. elim (ℕ_discrete f 0x5000) [
    | no n ↦ ground (arith, n)
    | yes same ↦
        absurd (ground (arith, ap (frame_used (allocator empty).segments) same, e, root_used))
  ];
  usable = λ f i d l u. absurd (ground (arith, u));
  child = λ f i g d l e. absurd (ground (arith, e));
  alone = λ f i h k g d e l l' p q. absurd (ground (arith, p));
}

pub memory-IsReady : IsReady align paging indices memory
memory-IsReady = record {
  level = level;
  sound = record { tree = memory-IsTree; valid = allocator-IsValid; len = refl };
  root_level = refl;
  cache = cache-IsValid;
  spare = omega arith;
}

map-Maps_example :
    ((map align paging indices 0x400000 0x200000 0x1800 user memory ≡ panic)
      × Exhausted align (4 * (align.align_up 0x1800 0x1000 / 0x1000)) (allocator empty))
    ⊎ ((m' : Memory align paging indices) × (map align paging indices 0x400000 0x200000 0x1800 user
            memory
          ≡ ok (none, m'))
        × Maps align paging indices
            (align.align_up 0x1800 0x1000 / 0x1000)
            0x400000
            0x200000
            user
            memory
            m')
map-Maps_example =
    map-Maps align paging indices 0x400000 0x200000 0x1800 user memory-IsReady
      (λ e. absurd (omega (arith, e))) (omega arith) (inl (omega arith)) (omega arith) (omega arith)

managed_run :
    map align paging indices 0xFFFF800000003000 0x200000 0x1000 user memory
    ≡ ok (some managed, memory)
unfolding map
managed_run = refl

map-refused_example :
    ((memory.tables ≡ memory.tables)
      × (memory.allocator ≡ memory.allocator)
      × (memory.root ≡ memory.root))
    × (((managed ≡ null_size) × (◌≡◌ {A = ℕ} 0x1000 0) × (memory.cache ≡ memory.cache))
        ⊎ (((managed ≡ managed)
              × (start_addr ≤ 0xFFFF800000003000)
              × (0xFFFF800000003000 < start_addr + cache_size)
              × (memory.cache ≡ memory.cache))
            ⊎ ((managed ≡ no_vcache_space)
                × (map_many paging indices memory.cache (0 ∷ 0 ∷ []) ≡ ok (none, memory.cache)))))
map-refused_example =
    map-refused align paging indices 0xFFFF800000003000 0x200000 0x1000 user memory managed_run

remove_identity-lookup_example :
    ((0x400000 % 2 ^ 48 < 2 ^ 47)
      × (lookup align paging indices (remove_identity align paging indices memory) 0x400000 ≡ none))
    ⊎ ((2 ^ 47 ≤ 0x400000 % 2 ^ 48)
        × (lookup align paging indices (remove_identity align paging indices memory) 0x400000
            ≡ lookup align paging indices memory 0x400000))
remove_identity-lookup_example =
    remove_identity-lookup align paging indices memory memory-IsTree refl 0x400000

-- The same, with an allocator whose headers take a page.
abbrev paged : Memory align paging indices
paged = record memory { allocator = record (allocator empty) { size = 0x1000 } }

paged-IsReady : IsReady align paging indices paged
paged-IsReady = record {
  level = level;
  sound = record {
    tree = record {
      free = memory-IsTree.free;
      usable = memory-IsTree.usable;
      child = memory-IsTree.child;
      alone = memory-IsTree.alone;
    };
    valid = allocator-IsValid;
    len = refl;
  };
  root_level = refl;
  cache = cache-IsValid;
  spare = omega arith;
}

map_header-HeaderMapped_example :
    ((map_header align paging indices paged ≡ panic)
      × Exhausted align (4 * pages_of align paging indices 0x1000) paged.allocator)
    ⊎ ((m' : Memory align paging indices) × (map_header align paging indices paged ≡ ok m')
        × HeaderMapped align paging indices paged m')
map_header-HeaderMapped_example =
    map_header-HeaderMapped align paging indices paged-IsReady (λ e. absurd (omega (arith, e)))
      (omega arith) (omega arith) (omega arith) (omega arith, tt)

valloc-OnNew_example :
    ((valloc align paging indices 0x400000 2 user memory ≡ panic)
      × Exhausted align 10 (allocator empty))
    ⊎ ((m' : Memory align paging indices) × (valloc align paging indices 0x400000 2 user memory
          ≡ ok m')
        × OnNew align paging indices 2 0x400000 user memory m')
unfolding frame_used in_range
valloc-OnNew_example =
    valloc-OnNew align paging indices 2 0x400000 user memory-IsReady (omega arith)
      (inl (omega arith)) (λ f w e. ground (arith, e))
