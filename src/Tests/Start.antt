-- ===== src/Tests/Start.antt =====
-- The start of memory management, over an empty root table and 32 free pages.
use helium_os.Prelude.{ℕ, ◌+◌, ◌*◌, ◌≡◌, ◌⊎◌, refl, Bool, true, false, arith, ok, panic, Outcome}
use helium_os.Platform.Instance.{align, paging, indices}
use helium_os.Phys.{allocate_frame, allocate_in, allocate_page, check, find_word}
use helium_os.Word.Ones.{trailing_ones, set_bit}
use helium_os.Tables.Insert.Result.{Exhausted}
use helium_os.Vcache
use helium_os.Mapper
use helium_os.Mapper.{Memory, valloc}
use helium_os.Mapper.Setup
use helium_os.Mapper.Setup.{make_tables}
use helium_os.Mapper.Setup.Boot.{IsScattered}
use helium_os.Heap
use helium_os.Heap.{Heap}
use helium_os.Mem.{virt_init, init}
use helium_os.Mem.Whole.{IsBooted, header_pages}
use helium_os.Mem.Started.{Started, init-Started}
use helium_os.Tests.Setup.{memory, level, roomy, memory-Stage}

memory-IsBooted : IsBooted align paging indices level memory
memory-IsBooted = record {
  stage = memory-Stage;
  root_level = refl;
  vacant = λ p3 p2 i e e' lt. refl;
  positive = λ e. absurd (omega (arith, e));
  room = omega arith;
  small = omega arith;
  whole = refl;
  low = (omega arith, tt);
}

init-Started_example :
    ((init align paging indices memory ≡ panic)
      × Exhausted align (6 + 4 * header_pages align paging indices memory) roomy)
    ⊎ (((p2 : ℕ) × (m₁ : Memory align paging indices) × (make_tables align paging indices memory
            ≡ ok (p2, m₁))
          × IsScattered align paging indices m₁ p2)
        ⊎ (((m' : Memory align paging indices) × (virt_init align paging indices memory ≡ ok m')
              × (init align paging indices memory ≡ panic)
              × Exhausted align 40 m'.allocator)
            ⊎ ((h : Heap align paging indices) × (init align paging indices memory ≡ ok h)
                × Started align paging indices memory h)))
init-Started_example = init-Started align paging indices memory-IsBooted

-- The last of the four ends.
ends_well : Outcome (Heap align paging indices) → Bool
ends_well panic = false
ends_well (ok h) = true

start_run : ends_well (init align paging indices memory) ≡ true
unfolding ends_well init virt_init allocate_frame allocate_in allocate_page check find_word
    trailing_ones set_bit Vcache.map Vcache.scan Vcache.new Vcache.fill Vcache.find_absent
    Vcache.renew Vcache.map_many Vcache.map_rest Vcache.p2_index Vcache.remap Vcache.unmap
    Vcache.unmap_many Mapper.init Mapper.map Mapper.map_pages Mapper.table_flags Setup.init
    Heap.init valloc
start_run = refl
