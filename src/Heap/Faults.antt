-- ===== src/Heap/Faults.antt =====
-- Faults on the heap of kernel/src/mem/heap.rs that come out of order.
use helium_os.Prelude.{
  ℕ, ◌+◌, ◌*◌, ◌/◌, ◌≤◌, ◌<◌, ◌≡◌, ◌≢◌, ◌⊎◌, inl, inr, refl, ◌∙◌, true, false, none, ◌&&◌, ltb, leb,
  arith, ok, panic,
}
use helium_os.Platform.{Align, Paging, Indices, no_flags, containing_address_bounds}
use helium_os.Phys.{page_size}
use helium_os.Tables.Insert.Result.{Exhausted}
use helium_os.Mapper.Page.{lookup}
use helium_os.Mapper.Address.{page_number}
use helium_os.Mapper.Whole.{IsReady, IsOutside}
use helium_os.Mapper.Valloc.{Inside, FramesFit}
use helium_os.Mapper.Valloc.Range.{valloc-OnNew}
use helium_os.Heap.{Heap, start, heap_size, is_heap, expansion, expand, page_fault}

expansion_most : (c : ℕ) → expansion c ≤ heap_size
unfolding expansion
expansion_most c = ground arith

module _ (x : Align) (y : Paging) (z : Indices) where
  -- How many pages `expand` maps at its next call.
  abbrev pub growth : Heap x y z → ℕ
  growth h = expansion h.expand_count / page_size

  heap-Inside :
      (h : Heap x y z) (adr : ℕ)
      → start ≤ adr
      → adr < start + heap_size
      → Inside (x.containing_address adr) (growth h)
  heap-Inside h adr ge lt = inr (
    omega (arith, ge, containing_address_bounds x adr),
    omega (arith, lt, containing_address_bounds x adr, expansion_most h.expand_count),
  )

  heap-IsOutside : (q : ℕ) → start ≤ q → q < start + heap_size → IsOutside q
  heap-IsOutside q ge lt = inr (omega (arith, ge, lt))

  below_apart :
      (h : Heap x y z) (adr q i : ℕ)
      → start ≤ q
      → adr < start + heap_size
      → q < x.containing_address adr
      → i < growth h
      → page_number q ≢ page_number (x.containing_address adr + i * 0x1000)
  below_apart h adr q i ge inside below lt e = omega (
    arith,
    e,
    ge,
    inside,
    below,
    lt,
    containing_address_bounds x adr,
    expansion_most h.expand_count,
  )

  -- In a memory that is ready, with all free frames below the largest physical address, a fault of
  -- the kernel at a heap address `adr` that is not below `HEAP_HEAD`, and an address `q` of the heap
  -- that is not mapped, before the page of `adr`, and that `HEAP_HEAD` passes now: either the kernel
  -- panics, because the allocator refuses one of five frames for each page, or `HEAP_HEAD` moves on
  -- by as much as was mapped, and `q` is still not mapped, but a fault at `q` returns and changes
  -- nothing, so that it comes again for ever.
  pub page_fault-strands :
      (h : Heap x y z) (adr q : ℕ)
      → IsReady x y z h.memory
      → FramesFit x y z h.memory
      → start ≤ h.heap_head
      → h.heap_head ≤ adr
      → adr < start + heap_size
      → h.heap_head ≤ q
      → q < h.heap_head + expansion h.expand_count
      → q < x.containing_address adr
      → lookup x y z h.memory q ≡ none
      → ((page_fault x y z false adr h ≡ panic) × Exhausted x (5 * growth h) h.memory.allocator)
        ⊎ ((h' : Heap x y z) × (page_fault x y z false adr h ≡ ok h')
            × (h'.heap_head ≡ h.heap_head + expansion h.expand_count)
            × (lookup x y z h'.memory q ≡ none)
            × (page_fault x y z false q h' ≡ ok h'))
  unfolding page_fault expand is_heap
  page_fault-strands h adr q r fit low above inside passed soon below absent =
      let before : q < start + heap_size =
        omega (arith, below, inside, containing_address_bounds x adr) in
      let heap_adr : (leb start adr && ltb adr (start + heap_size)) ≡ true =
        ground (arith, low, above, inside) in
      let heap_q : (leb start q && ltb q (start + heap_size)) ≡ true =
        ground (arith, low, passed, before) in
      let fresh : ltb adr h.heap_head ≡ false = ground (arith, above) in
      let behind : ltb q (h.heap_head + expansion h.expand_count) ≡ true = ground (arith, soon) in
      elim (valloc-OnNew x y z (growth h) (x.containing_address adr)
        (record no_flags { writable = true }) r (containing_address_bounds x adr).2
        (heap-Inside h adr (omega (arith, low, above)) inside) fit) [
          | inl (e, out) ↦ inl (rw (heap_adr, fresh, e) refl, out)
          | inr (m', e, o) ↦ inr (
            record {
              memory = m';
              heap_head = h.heap_head + expansion h.expand_count;
              expand_count = h.expand_count + 1;
            },
            rw (heap_adr, fresh, e) refl,
            refl,
            o.rest q (heap-IsOutside q (omega (arith, low, passed)) before)
                  (λ i lt. below_apart h adr q i (omega (arith, low, passed)) inside below lt)
                ∙ absent,
            rw (heap_q, behind) refl,
          )
        ]
