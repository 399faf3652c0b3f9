-- ===== src/Proc/AddressSpace.antt =====
-- The memory of a task, `MemoryMap` and `MemoryMapping` of kernel/src/proc/task.rs, over the
-- physical frame allocator. Mapping into the page tables (`vmap`) is an argument.
pub mod Active
pub mod Frames
use helium_os.Prelude.{
  ℕ, zero, suc, ◌+◌, ◌*◌, Bool, true, false, Option, none, some, List, [], ◌∷◌, ◌++◌, ◌==◌,
  if◌then◌else◌, Outcome, ok, panic, ◌>>=◌, ◌>>◌, assert,
}
use helium_os.Platform.{Align, Indices, Flags}
use helium_os.Phys.{Allocator, page_size, allocate_frame, deallocate_frame}
use helium_os.Proc.{MemoryMapping, MemoryMap, ProcInfo}

-- `MemoryMap::new`. `ID_COUNT` is a `const`, so that every use of it is a counter of its own: what
-- `fetch_add` returns is its initial value.
unfoldable pub new_map : MemoryMap
new_map = record { id = 0; mappings = [] }

-- `MemoryMap::add_raw`; it always returns the last mapping.
unfoldable pub add_raw : MemoryMap → MemoryMapping → MemoryMap
add_raw m mapping = record m { mappings = m.mappings ++ (mapping ∷ []) }

-- `pfree_all`
unfoldable pub pfree_all : List ℕ → Allocator → Outcome Allocator
pfree_all [] a = ok a
pfree_all (f ∷ fs) a = deallocate_frame a f >>= (λ a'. pfree_all fs a')

-- `Drop` of the mappings of a map: the frames that it allocated are freed.
unfoldable pub drop_mappings : List MemoryMapping → Allocator → Outcome Allocator
drop_mappings [] a = ok a
drop_mappings (m ∷ ms) a =
    (if m.allocated then deallocate_frame a m.padr else ok a) >>= (λ a'. drop_mappings ms a')

-- The page of index `i` of an allocation, with its frame.
abbrev pub allocated_page : ℕ → ℕ → Flags → ℕ → MemoryMapping
allocated_page vadr i flags frame = record {
  vadr = vadr + i * page_size;
  padr = frame;
  n = 1;
  flags = flags;
  allocated = true;
}

-- What `allocate` returns, with the allocator and the map after it.
abbrev pub Allocation : Type 0
Allocation = Option (List ℕ) × Allocator × MemoryMap

module _ (x : Align) (z : Indices) where
  -- The loop of `allocate`: `n` pages from index `i` on, with the frames that it has so far. The sum
  -- of the address and an offset is a panic if it is not canonical.
  unfoldable pub allocate_from :
      ℕ → Flags → ℕ → ℕ → List ℕ → Allocator → MemoryMap → Outcome Allocation
  unfolding add_raw
  allocate_from vadr flags i zero frames a m = ok (some frames, a, m)
  allocate_from vadr flags i (suc n) frames a m = do
    (result, a') ← allocate_frame x a
    elim result [
      | none ↦ do a'' ← pfree_all frames a'; ok (none, a'', m)
      | some frame ↦ do
        assert (z.is_canonical (vadr + i * page_size))
        allocate_from vadr flags (i + 1) n (frames ++ (frame ∷ [])) a'
            (add_raw m (allocated_page vadr i flags frame))
    ]

  -- `MemoryMap::allocate`
  unfoldable pub allocate : ℕ → ℕ → Flags → Allocator → MemoryMap → Outcome Allocation
  allocate vadr n flags a m = allocate_from vadr flags 0 n [] a m

module _ {Tables : Type 0} (vmap : MemoryMapping → Tables → Outcome Tables) where
  -- The loop of `MemoryMap::apply`; an error of `vmap` is a panic, by the `unwrap`.
  unfoldable pub apply_all : List MemoryMapping → Tables → Outcome Tables
  apply_all [] t = ok t
  apply_all (m ∷ ms) t = vmap m t >>= (λ t'. apply_all ms t')

  -- The mappings are applied, and the map is the active one.
  abbrev pub activate : MemoryMap → ProcInfo → Tables → Outcome (ProcInfo × Tables)
  activate m p t =
      apply_all m.mappings t >>= (λ t'. ok (record p { active_mapping = some m.id }, t'))

  -- `MemoryMap::apply`, by the active map: the one with the same identifier is not applied again.
  abbrev pub apply_over : Option ℕ → MemoryMap → ProcInfo → Tables → Outcome (ProcInfo × Tables)
  apply_over none m p t = activate m p t
  apply_over (some active) m p t = if active == m.id then ok (p, t) else activate m p t

  unfoldable pub apply : MemoryMap → ProcInfo → Tables → Outcome (ProcInfo × Tables)
  apply m p t = apply_over p.active_mapping m p t
