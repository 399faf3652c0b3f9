-- ===== src/Heap.antt =====
-- The kernel heap, kernel/src/mem/heap.rs: it grows when the kernel faults on one of its pages,
-- kernel/src/interrupts/exceptions/pagefault.rs. The allocator over it is a crate.
pub mod Faults
use helium_os.Prelude.{
  ℕ, zero, suc, ◌+◌, ◌-◌, ◌*◌, ◌/◌, ◌^◌, Bool, true, false, ◌&&◌, not, ltb, leb, if◌then◌else◌,
  Outcome, ok, panic, ◌>>=◌,
}
use helium_os.Platform.{Align, Paging, Indices, no_flags}
use helium_os.Phys.{page_size}
use helium_os.Mapper.{Memory, valloc}

-- `START`, `SIZE` and `FRAG_SIZE`
abbrev pub start : ℕ
start = 0xFFFF808000000000

abbrev pub heap_size : ℕ
heap_size = 2 * 1024 * 1024 * 1024

abbrev pub frag_size : ℕ
frag_size = 32 * 1024

-- `is_heap`
unfoldable pub is_heap : ℕ → Bool
is_heap adr = leb start adr && ltb adr (start + heap_size)

-- How much `expand` maps at its next call; what is left is always the whole heap.
unfoldable pub expansion : ℕ → ℕ
expansion expand_count =
    if ltb ((expand_count + 1) * frag_size) heap_size
    then (expand_count + 1) * frag_size
    else heap_size

module _ (x : Align) (y : Paging) (z : Indices) where
  -- `HEAP_HEAD` and `EXPAND_COUNT`, with the memory that the kernel maps.
  pub record Heap : Type 0 where
    pub memory : Memory x y z
    pub heap_head : ℕ
    pub expand_count : ℕ

  -- `init`: the first pages are mapped, and `HEAP_HEAD` stays where the heap starts.
  unfoldable pub init : Memory x y z → Outcome Heap
  unfolding valloc
  init m =
      valloc x y z start (frag_size / page_size) (record no_flags { writable = true }) m
      >>= (λ m'. ok (record { memory = m'; heap_head = start; expand_count = 0 }))

  -- `expand`
  unfoldable pub expand : ℕ → Heap → Outcome Heap
  unfolding valloc expansion
  expand adr h =
      if ltb adr h.heap_head
      then ok h
      else (valloc x y z (x.containing_address adr) (expansion h.expand_count / page_size)
            (record no_flags { writable = true }) h.memory
          >>= (λ m'. ok (record {
            memory = m';
            heap_head = h.heap_head + expansion h.expand_count;
            expand_count = h.expand_count + 1;
          })))

  -- `page_fault`, at an address and from user mode or not; a fault that is not the heap's is a
  -- panic.
  unfoldable pub page_fault : Bool → ℕ → Heap → Outcome Heap
  unfolding expand is_heap
  page_fault user_mode adr h = if not user_mode && is_heap adr then expand adr h else panic
