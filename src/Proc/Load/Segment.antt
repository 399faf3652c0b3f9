-- ===== src/Proc/Load/Segment.antt =====
-- The pages that `Task::exec`, kernel/src/proc/task.rs, gives to a task.
use helium_os.Prelude.{
  ℕ, zero, suc, ◌+◌, ◌-◌, ◌*◌, ◌/◌, ◌%◌, ◌^◌, ◌≤◌, ◌<◌, ◌≡◌, refl, ap, sym, ◌∙◌, Bool, true, false,
  Option, some, List, [], ◌∷◌, ◌++◌, ltb, All, All-append, leb, ◌==◌, Outcome, ◌>>=◌, assert,
  checked_add, arith, Returns, returns, fails, after, after_any, after_option, after_test,
}
use helium_os.Platform.{Align, Paging, Indices, Flags, page_up_bounds, containing_address_bounds}
use helium_os.Phys.{Allocator, page_size, allocate_frame}
use helium_os.Elf.{ElfFile, ProgramHeader, slice, read_program_header}
use helium_os.Proc.{MemoryMap, MemoryMapping}
use helium_os.Proc.AddressSpace.{
  allocate, allocate_from, add_raw, allocated_page, pfree_all, Allocation,
}
use helium_os.Proc.Load.{
  ExecResult, success, Loading, Machine, allocate_filled, load_segment, fill_segment,
  tmp_local_reserve, write_from, load_all, load_stack, userspace_top, userstack_top, userstack_size,
}

-- One page of its own in the lower half of the address space, which the task may access.
pub record IsUser (m : MemoryMapping) : Type 0 where
  pub aligned : m.vadr % 0x1000 ≡ 0
  pub low : m.vadr < 2 ^ 47
  pub accessible : m.flags.user_accessible ≡ true
  pub owned : m.allocated ≡ true
  pub single : m.n ≡ 1

abbrev pub AllUser : MemoryMap → Type 0
AllUser m = All IsUser m.mappings

unfoldable pub is_failure : Option ExecResult → Bool
is_failure (some (success id)) = false
is_failure e = true

-- A result of the loader that is no success, and a map of the task's own pages.
abbrev pub Sane {ℓ} : {A : Type ℓ} → Option ExecResult × MemoryMap × A → Type 0
Sane (e, m, s) = (is_failure e ≡ true) × AllUser m

abbrev MapSane : Allocation → Type 0
MapSane (o, a, m) = AllUser m

module _ (x : Align) (z : Indices) where
  allocate_from-AllUser :
      (vadr : ℕ) (flags : Flags) (i n : ℕ) (frames : List ℕ) (a : Allocator) (m : MemoryMap)
      → vadr % 0x1000 ≡ 0
      → vadr + (i + n) * 0x1000 ≤ 2 ^ 47
      → flags.user_accessible ≡ true
      → AllUser m
      → Returns MapSane (allocate_from x z vadr flags i n frames a m)
  unfolding allocate_from add_raw
  allocate_from-AllUser vadr flags i zero frames a m w le u all = returns all
  allocate_from-AllUser vadr flags i (suc n) frames a m w le u all =
      after_any (allocate_frame x a) _ (λ (r, b).
        after_option r (after_any (pfree_all frames b) _ (λ c. returns all)) (λ f given.
          after_any (assert (z.is_canonical (vadr + i * page_size))) _ (λ canonical.
            allocate_from-AllUser vadr flags (i + 1) n (frames ++ (f ∷ [])) b
              (add_raw m (allocated_page vadr i flags f)) w (omega (arith, le)) u
              (All-append IsUser m.mappings (allocated_page vadr i flags f) all (record {
                aligned = omega (arith, w);
                low = omega (arith, le);
                accessible = u;
                owned = refl;
                single = refl;
              })))))

checked_add-sum : (w a b : ℕ) → Returns (λ e. e ≡ a + b) (checked_add w a b)
checked_add-sum w a b = after_test (ltb (a + b) (2 ^ w)) (λ fits. returns refl) (λ over. fails)

module _ (x : Align) (y : Paging) (z : Indices) (l : Loading) where
  allocate_filled-Sane :
      (vadr n : ℕ) (flags : Flags) (next : List ℕ → Machine x y z l → Outcome (Machine x y z l))
      (m : MemoryMap) (s : Machine x y z l)
      → vadr % 0x1000 ≡ 0
      → vadr + n * 0x1000 ≤ 2 ^ 47
      → flags.user_accessible ≡ true
      → AllUser m
      → Returns Sane (allocate_filled x y z l vadr n flags next m s)
  unfolding allocate_filled allocate is_failure
  allocate_filled-Sane vadr n flags next m s w le u all =
      after _
        (allocate_from-AllUser x z vadr flags 0 n [] s.memory.allocator m w (omega (arith, le)) u
          all)
        (λ (r, a, m') all'.
          after_option r (returns (refl, all'))
            (λ frames given. after_any (next frames _) _ (λ s₂. returns (refl, all'))))

  -- A header of type `Load` gives the task pages of its own below `USERSPACE_TOP`, or an error.
  load_segment-Sane :
      (elf : ElfFile) (entry : ProgramHeader) (m : MemoryMap) (s : Machine x y z l)
      → AllUser m
      → Returns Sane (load_segment x y z l elf entry m s)
  unfolding load_segment is_failure
  load_segment-Sane elf entry m s all =
      after_test (ltb page_size entry.align) (λ big. returns (refl, all))
        (λ small. after _ (checked_add-sum 64 entry.vadr entry.mem_size) (λ end_adr sum.
          after_test (leb userspace_top end_adr) (λ over. returns (refl, all))
            (λ low.
              after_test (ltb _ entry.mem_size) (λ large. returns (refl, all))
                (λ fits. after_any (slice elf entry.offset entry.file_size) _ (λ o.
                  after_option o (returns (refl, all)) (λ (adr, len) found.
                    allocate_filled-Sane page_start _ _
                      (fill_segment x y z l (entry.vadr - page_start) entry.mem_size adr len) m s
                      (omega (arith, containing_address_bounds x entry.vadr))
                      (within (ground (arith, low, sum))) refl all))))))
    where
      page_start : ℕ
      page_start = x.containing_address entry.vadr

      within :
          entry.vadr + entry.mem_size < userspace_top
          → page_start
              + x.align_up (entry.mem_size + entry.vadr - page_start) page_size / page_size * 0x1000
            ≤ 2 ^ 47
      within lt = omega (
        arith,
        lt,
        containing_address_bounds x entry.vadr,
        page_up_bounds x (entry.mem_size + entry.vadr - page_start),
      )

  pub load_all-Sane :
      (elf : ElfFile) (hs : List ℕ) (m : MemoryMap) (s : Machine x y z l)
      → AllUser m
      → Returns Sane (load_all x y z l elf hs m s)
  unfolding load_all is_failure
  load_all-Sane elf [] m s all = returns (refl, all)
  load_all-Sane elf (h ∷ hs) m s all =
      after_test ((read_program_header l.ramdisk h).ptype == 1)
        (λ is_load.
          after _ (load_segment-Sane elf (read_program_header l.ramdisk h) m s all)
            (λ (e, m', s') (f, all').
              after_option e (load_all-Sane elf hs m' s' all')
                (λ e' eq. returns (ap is_failure (sym eq) ∙ f, all'))))
        (λ other. load_all-Sane elf hs m s all)

  pub load_stack-Sane :
      (m : MemoryMap) (s : Machine x y z l) → AllUser m → Returns Sane (load_stack x y z l m s)
  unfolding load_stack
  load_stack-Sane m s all =
      allocate_filled-Sane userstack_top (userstack_size / page_size) _
        (λ frames s₁.
          tmp_local_reserve x y z l 0 frames s₁
          >>= (λ (ptr, s₂). write_from x y z l userstack_size 0 (λ i. 0) ptr s₂))
        m s (omega arith) (omega arith) refl all
