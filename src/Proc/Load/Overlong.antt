-- ===== src/Proc/Load/Overlong.antt =====
-- A part of a file for `Task::exec`, kernel/src/proc/task.rs, that is longer in the file than in memory.
use helium_os.Prelude.{
  ℕ, ◌+◌, ◌-◌, ◌/◌, ◌≤◌, ◌<◌, ◌≡◌, ◌⊎◌, inl, inr, refl, true, false, none, some, List, ltb, leb,
  arith, Outcome, Outcome-cases, ok, panic, ◌>>=◌, checked_add,
}
use helium_os.Platform.{Align, Paging, Indices, Flags}
use helium_os.Phys.{page_size}
use helium_os.Elf.{ElfFile, ProgramHeader, slice, memory_flags}
use helium_os.Proc.{MemoryMap}
use helium_os.Proc.AddressSpace.{allocate, Allocation}
use helium_os.Proc.Load.{
  allocation_error, Loading, Machine, Loaded, allocate_filled, fill_segment, load_segment,
  write_from, tmp_local_reserve, userspace_top, tmp_task_size_per_proc,
}

never_returns :
    {A B : Type 0} (o : Outcome A) (k : A → Outcome B) → ((a : A) → k a ≡ panic) → (o >>= k) ≡ panic
never_returns panic k h = refl
never_returns (ok a) k h = h a

module _ (x : Align) (y : Paging) (z : Indices) (l : Loading) where
  fill_segment-panics :
      (offset mem_size adr len : ℕ) (frames : List ℕ) (s : Machine x y z l)
      → mem_size < len
      → fill_segment x y z l offset mem_size adr len frames s ≡ panic
  unfolding fill_segment
  fill_segment-panics offset mem_size adr len frames s lt =
      let long : leb len mem_size ≡ false = ground (arith, lt) in
      never_returns (tmp_local_reserve x y z l offset frames s) _ (λ (ptr, s₁).
        never_returns (write_from x y z l mem_size 0 (λ i. 0) ptr s₁) _ (λ s₂. rw long refl))

  abbrev Stops : Outcome (Loaded x y z l) → Type 0
  Stops o =
      (o ≡ panic)
      ⊎ ((m' : MemoryMap) × (s' : Machine x y z l) × (o ≡ ok (some allocation_error, m', s')))

  allocate_filled-Stops :
      (vadr n : ℕ) (flags : Flags) (next : List ℕ → Machine x y z l → Outcome (Machine x y z l))
      (m : MemoryMap) (s : Machine x y z l)
      → ((frames : List ℕ) (s' : Machine x y z l) → next frames s' ≡ panic)
      → Stops (allocate_filled x y z l vadr n flags next m s)
  unfolding allocate_filled
  allocate_filled-Stops vadr n flags next m s never =
      elim (Outcome-cases (allocate x z vadr n flags s.memory.allocator m)) [
        | inl e ↦ inl (rw e refl)
        | inr (r, e) ↦ split r e
      ]
    where
      split :
          (r : Allocation)
          → allocate x z vadr n flags s.memory.allocator m ≡ ok r
          → Stops (allocate_filled x y z l vadr n flags next m s)
      split (none, a, m') e =
          inr (m', record s { memory = record s.memory { allocator = a } }, rw e refl)
      split (some frames, a, m') e = inl (rw (e, never) refl)

  -- A header that passes all four checks of `exec`, but has more bytes in the file than in memory,
  -- stops the kernel: it panics, unless there is no memory for the task at all.
  pub load_segment-overlong :
      (elf : ElfFile) (entry : ProgramHeader) (m : MemoryMap) (s : Machine x y z l) {adr len : ℕ}
      → entry.align ≤ page_size
      → entry.vadr + entry.mem_size < userspace_top
      → entry.mem_size ≤ tmp_task_size_per_proc
      → slice elf entry.offset entry.file_size ≡ ok (some (adr, len))
      → entry.mem_size < len
      → (load_segment x y z l elf entry m s ≡ panic)
        ⊎ ((m' : MemoryMap) × (s' : Machine x y z l) × (load_segment x y z l elf entry m s
              ≡ ok (some allocation_error, m', s')))
  unfolding load_segment
  load_segment-overlong elf entry m s {adr} {len} small low fits found long =
      let aligned : ltb page_size entry.align ≡ false = ground (arith, small) in
      let sum : checked_add 64 entry.vadr entry.mem_size ≡ ok (entry.vadr + entry.mem_size) =
        ground (arith, low) in
      let below : leb userspace_top (entry.vadr + entry.mem_size) ≡ false = ground (arith, low) in
      let sized : ltb tmp_task_size_per_proc entry.mem_size ≡ false = ground (arith, fits) in
      let start = x.containing_address entry.vadr in
      let same : load_segment x y z l elf entry m s
          ≡ allocate_filled x y z l start
              (x.align_up (entry.mem_size + entry.vadr - start) page_size / page_size)
              (record (memory_flags entry) { user_accessible = true })
              (fill_segment x y z l (entry.vadr - start) entry.mem_size adr len) m s =
        rw (aligned, sum, below, sized, found) refl in
      rw same (
        allocate_filled-Stops start _ _ _ m s (λ frames s'.
          fill_segment-panics (entry.vadr - start) entry.mem_size adr len frames s' long))
