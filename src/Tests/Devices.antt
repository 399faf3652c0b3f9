-- ===== src/Tests/Devices.antt =====
-- The frame buffer, the heap and the local APIC.
use helium_os.Prelude.{
  ℕ, ◌+◌, ◌-◌, ◌*◌, ◌/◌, ◌%◌, ◌^◌, ◌≤◌, ◌<◌, ◌≡◌, ◌⊎◌, inl, refl, false, none, [], ◌∷◌, arith, ok,
  panic,
}
use helium_os.Platform.Instance.{align, paging, indices}
use helium_os.Framebuffer.{Framebuffer, argb, set_pixel, from_rgb, get_or}
use helium_os.Framebuffer.Pixels.{set_pixel-outside}
use helium_os.Phys.{in_range}
use helium_os.Phys.Valid.{frame_used}
use helium_os.Tables.Insert.Result.{Exhausted}
use helium_os.Mapper.Page.{lookup}
use helium_os.Tables.{walk}
use helium_os.Heap.{Heap, start, expansion, page_fault}
use helium_os.Heap.Faults.{page_fault-strands}
use helium_os.Apic.{
  LocalApicRegisterMap, Vectors, all, divider, timer_setup, timer_reset, spurious_setup,
  error_setup, lint_setup, setup_lints, program, init, Config,
}
use helium_os.Apic.Timer.{init-quantum}
use helium_os.Tests.Mapper.{memory, memory-IsReady}

abbrev pub screen : Framebuffer
screen = record {
  format = argb;
  width = 640;
  height = 480;
  scanline = 2560;
  ptr = 0xFFFFFFFFFC000000;
  lowest_offset = none;
  highest_offset = none;
  double_buffer = none;
}

set_pixel-outside_example :
    (adr w : ℕ) × (fb' : Framebuffer) × (set_pixel 10 200 (from_rgb 255 0 0) screen
      ≡ ok ((adr, w), fb'))
    × (adr ≡ get_or screen.double_buffer screen.ptr + 4 * (200 * screen.scanline + 4 * 10))
    × ((4 * 200 < screen.height)
        ⊎ (get_or screen.double_buffer screen.ptr + screen.scanline * screen.height ≤ adr))
set_pixel-outside_example =
    set_pixel-outside 10 200 (from_rgb 255 0 0) screen (inl refl) (omega arith) (omega arith)
      (omega arith) (omega arith)

abbrev heap : Heap align paging indices
heap = record { memory = memory; heap_head = start; expand_count = 0 }

first_expansion : expansion 0 ≡ 0x8000
unfolding expansion
first_expansion = refl

not_there : lookup align paging indices memory (start + 0x4000) ≡ none
unfolding walk
not_there = refl

page_fault-strands_example :
    ((page_fault align paging indices false (start + 0x100000) heap ≡ panic)
      × Exhausted align (5 * (expansion 0 / 0x1000)) memory.allocator)
    ⊎ ((h' : Heap align paging indices) × (page_fault align paging indices false
            (start + 0x100000)
            heap
          ≡ ok h')
        × (h'.heap_head ≡ start + expansion 0)
        × (lookup align paging indices h'.memory (start + 0x4000) ≡ none)
        × (page_fault align paging indices false (start + 0x4000) h' ≡ ok h'))
unfolding frame_used in_range
page_fault-strands_example =
    page_fault-strands align paging indices heap (start + 0x100000) (start + 0x4000) memory-IsReady
      (λ f w e. ground (arith, e)) (omega arith) (omega arith) (omega arith) (omega arith)
      (omega (arith, first_expansion)) (omega arith) not_there

abbrev registers : LocalApicRegisterMap
registers = record {
  eoireg = 0;
  sivreg = 0xFF;
  lvt_timerreg = 0;
  lvt_lint0reg = 0;
  lvt_lint1reg = 0;
  lvt_errreg = 0;
  initcountreg = 0;
  divcfgreg = 0;
}

abbrev vectors : Vectors
vectors = record { timer = 0x20; error = 0x21; spurious = 0x22 }

abbrev programmed : LocalApicRegisterMap
programmed = record {
  eoireg = 0;
  sivreg = 0x122;
  lvt_timerreg = 0x20020;
  lvt_lint0reg = 0;
  lvt_lint1reg = 5;
  lvt_errreg = 0x21;
  initcountreg = 10000000000 % 2 ^ 32;
  divcfgreg = 0b1011;
}

programmed_run :
    init vectors 0 (all 1 5 ∷ []) 4000000 3000000 registers ≡ ok (10000000000, programmed)
unfolding init timer_setup divider spurious_setup error_setup program timer_reset setup_lints
    lint_setup
programmed_run = refl

init-quantum_example :
    (10000000000 ≡ (4000000 - 3000000) * 10000) × (programmed.initcountreg ≡ 10000000000 % 2 ^ 32)
init-quantum_example =
    init-quantum vectors 0 (all 1 5 ∷ []) 4000000 3000000 registers programmed_run

abbrev config : Config align paging indices (λ vadr. 23)
config = record { memory = memory; numcores = 0; ioapics = []; redirections = []; nmis = [] }

abbrev counted : Config align paging indices (λ vadr. 23)
counted = record config { numcores = 2; nmis = all 1 5 ∷ [] }
