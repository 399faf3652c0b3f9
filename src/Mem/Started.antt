-- ===== src/Mem/Started.antt =====
-- The start of memory management with the heap, kernel/src/mem/mod.rs.
use helium_os.Prelude.{
  ℕ, ◌+◌, ◌*◌, ◌%◌, ◌^◌, ◌<◌, ◌≡◌, ◌⊎◌, inl, inr, refl, ◌∙◌, true, false, none, some, arith, ok,
  panic,
}
use helium_os.Platform.{Align, Paging, Indices, Flags, no_flags, page_up_bounds}
use helium_os.Phys.Valid.{frame_used}
use helium_os.Tables.Insert.Result.{Exhausted}
use helium_os.Mapper.{Memory, page_flags}
use helium_os.Mapper.Page.{lookup}
use helium_os.Mapper.Whole.{IsReady}
use helium_os.Mapper.Header.{physheader_start, header_flags}
use helium_os.Mapper.Setup.{make_tables}
use helium_os.Mapper.Setup.Boot.{IsScattered}
use helium_os.Mapper.Valloc.{Inside, OnNew}
use helium_os.Mapper.Valloc.Range.{valloc-OnNew}
use helium_os.Heap
use helium_os.Heap.{Heap}
use helium_os.Mem.{virt_init, init}
use helium_os.Mem.Whole.{IsBooted, VirtReady, header_pages, virt_init-VirtReady}

module _ (x : Align) (y : Paging) (z : Indices) where
  abbrev pub heap_flags : Flags
  heap_flags = record no_flags { writable = true }

  -- The pages of the heap are on frames of their own, the heap has not grown yet, and what the first
  -- part of the start mapped is still there.
  pub record Started (m : Memory x y z) (h : Heap x y z) : Type 0 where
    pub ready : IsReady x y z h.memory
    pub fresh : h.heap_head ≡ Heap.start
    pub unexpanded : h.expand_count ≡ 0
    pub pages :
        (i : ℕ)
        → i < 8
        → (g : ℕ) × (lookup x y z h.memory (Heap.start + i * 0x1000)
            ≡ some (g, page_flags (Heap.start + i * 0x1000) heap_flags))
          × (frame_used m.allocator.segments g ≡ false)
          × (frame_used h.memory.allocator.segments g ≡ true)
    pub distinct :
        (i j g : ℕ) (a b : Flags)
        → i < 8
        → j < 8
        → lookup x y z h.memory (Heap.start + i * 0x1000) ≡ some (g, a)
        → lookup x y z h.memory (Heap.start + j * 0x1000) ≡ some (g, b)
        → i ≡ j
    pub headers :
        (i : ℕ)
        → i < header_pages x y z m
        → lookup x y z h.memory (physheader_start + i * 0x1000)
          ≡ some (
            m.allocator.phyframe + i * 0x1000,
            page_flags (physheader_start + i * 0x1000) (header_flags x y z),
          )
    pub low : (q : ℕ) → q % 2 ^ 48 < 2 ^ 47 → lookup x y z h.memory q ≡ none

  OnNew-Started :
      {level : ℕ → ℕ} {m m' m'' : Memory x y z}
      → IsBooted x y z level m
      → VirtReady x y z m m'
      → OnNew x y z 8 Heap.start heap_flags m' m''
      → Started m (record { memory = m''; heap_head = Heap.start; expand_count = 0 })
  OnNew-Started {m = m} b v o = record {
    ready = o.ready;
    fresh = refl;
    unexpanded = refl;
    pages =
        λ i lt. let (g, e, whole, free, used) = o.mapped i lt in (g, e, v.free g whole free, used);
    distinct = o.distinct;
    headers = λ i lt.
        o.rest (physheader_start + i * 0x1000)
          (inr (omega (arith, lt, b.room, page_up_bounds x m.allocator.size)))
          (λ j lj e. omega (arith, e, lj, lt, b.room, page_up_bounds x m.allocator.size))
        ∙ v.headers i lt;
    low = λ q lt.
        o.rest q (inl (omega (arith, lt))) (λ j lj e. omega (arith, e, lj, lt)) ∙ v.low q lt;
  }

  -- `mem::init`, in the memory that the kernel starts with, comes to one of four ends: the
  -- allocator refuses a frame in the set-up of virtual memory, or afterwards for the heap, and the
  -- kernel panics; or the last-level tables of the cache do not follow one another in memory; or
  -- the first eight pages of the heap are mapped to frames of their own, which were free at the
  -- start, the headers of the allocator are mapped, the lower half of the address space is empty,
  -- and memory is ready for the mapper.
  pub init-Started :
      {level : ℕ → ℕ} {m : Memory x y z}
      → IsBooted x y z level m
      → ((init x y z m ≡ panic) × Exhausted x (6 + 4 * header_pages x y z m) m.allocator)
        ⊎ (((p2 : ℕ) × (m₁ : Memory x y z) × (make_tables x y z m ≡ ok (p2, m₁))
              × IsScattered x y z m₁ p2)
            ⊎ (((m' : Memory x y z) × (virt_init x y z m ≡ ok m')
                  × (init x y z m ≡ panic)
                  × Exhausted x 40 m'.allocator)
                ⊎ ((h : Heap x y z) × (init x y z m ≡ ok h) × Started m h)))
  unfolding init Heap.init
  init-Started {level} {m} b = elim (virt_init-VirtReady x y z b) [
    | inl (e, out) ↦ inl (rw e refl, out)
    | inr (inl scattered) ↦ inr (inl scattered)
    | inr (inr (m', e, v)) ↦
        elim (valloc-OnNew x y z 8 Heap.start heap_flags v.ready (omega arith) inside
          (λ f w u. omega (arith, b.stage.low f w (v.free f w u)))) [
            | inl (e', out) ↦ inr (inr (inl (m', e, rw (e, e') refl, out)))
            | inr (m'', e', o) ↦ inr (
                inr (
                  inr (
                    record { memory = m''; heap_head = Heap.start; expand_count = 0 },
                    rw (e, e') refl,
                    OnNew-Started b v o,
                  )))
          ]
  ]
    where
      inside : Inside Heap.start 8
      inside = inr (omega arith, omega arith)
