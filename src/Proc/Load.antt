-- ===== src/Proc/Load.antt =====
-- The loader of tasks, `Task::exec` and what it calls, kernel/src/proc/task.rs. The frames of a new
-- task are mapped at the processor's part of `TMP_TASKLDMAP` and filled through these pages: a
-- write goes to the frame that the page tables have for the page. The bytes of physical memory are
-- a function, and so is the memory that the ramdisk lies in.
pub mod Outcomes
pub mod Segment
pub mod Overlong
use helium_os.Prelude.{
  ℕ, zero, suc, ◌+◌, ◌-◌, ◌*◌, ◌/◌, ◌%◌, Bool, true, false, Option, none, some, List, [], ◌∷◌, ltb,
  leb, ◌==◌, if◌then◌else◌, Outcome, ok, panic, ◌>>=◌, ◌>>◌, assert, unwrap, checked_add,
}
use helium_os.Platform.{Align, Paging, Indices, Flags, no_flags}
use helium_os.Phys.{page_size}
use helium_os.Vcache.{kvmspace, update}
use helium_os.Mapper.{Memory, vmap_many}
use helium_os.Mapper.Page.{lookup}
use helium_os.Elf.{
  ElfFile, ProgramHeader, slice, iter_progheader, read_program_header, memory_flags, parse,
}
use helium_os.Initrd.{Entries, open_file}
use helium_os.Proc.{MemoryMap, Kernel, userstack_bottom, new_procstate}
use helium_os.Proc.Sched.{new_locked}
use helium_os.Proc.AddressSpace.{new_map, allocate, drop_mappings}

abbrev pub userspace_top : ℕ
userspace_top = 0x7fffffffffff

abbrev pub userstack_size : ℕ
userstack_size = 512 * 1024

abbrev pub userstack_top : ℕ
userstack_top = userstack_bottom - userstack_size

abbrev pub tmp_taskldmap : ℕ
tmp_taskldmap = kvmspace + 9 * 1024 * 1024 * 1024 * 1024

abbrev pub tmp_task_size_per_proc : ℕ
tmp_task_size_per_proc = 32 * 1024 * 1024 * 1024

pub data ExecResult : Type 0 where
  success : ℕ → ExecResult
  file_error : ExecResult
  parse_error : ExecResult
  insecure_load : ℕ → ℕ → ExecResult
  allocation_error : ExecResult
  large_alignment : ℕ → ExecResult
  large_size : ℕ → ExecResult
  binary_end : ℕ → ℕ → ExecResult
  unsupported_directive : ℕ → ExecResult

-- What a processor needs for loading: its number, the two segments of user code and data, and the
-- memory that the ramdisk is in.
pub record Loading : Type 0 where
  pub id : ℕ
  pub ucode_seg : ℕ
  pub udata_seg : ℕ
  pub ramdisk : ℕ → ℕ

module _ (x : Align) (y : Paging) (z : Indices) (l : Loading) where
  -- The memory that the kernel maps, and the bytes of physical memory.
  pub record Machine : Type 0 where
    pub memory : Memory x y z
    pub bytes : ℕ → ℕ

  -- `n` bytes are written from index `i` of the region at `ptr` on; a page that is not mapped is a
  -- fault of the kernel.
  unfoldable pub write_from : ℕ → ℕ → (ℕ → ℕ) → ℕ → Machine → Outcome Machine
  write_from zero i value ptr s = ok s
  write_from (suc n) i value ptr s = do
    (frame, flags) ← unwrap (lookup x y z s.memory (ptr + i))
    write_from n (i + 1) value ptr
        (record s { bytes = update s.bytes (frame + (ptr + i) % page_size) (value i) })

  -- `tmp_local_reserve`: the pointer, with the frames mapped.
  unfoldable pub tmp_local_reserve : ℕ → List ℕ → Machine → Outcome (ℕ × Machine)
  unfolding vmap_many
  tmp_local_reserve offset frames s =
      let start = tmp_taskldmap + l.id * tmp_task_size_per_proc in
      vmap_many x y z start frames (record no_flags { writable = true }) s.memory
      >>= (λ memory. ok (start + offset, record s { memory = memory }))

  -- The part of a file is laid in the task's memory: all of it is cleared, then the content is
  -- copied; `data[0..content.len()]` is a panic if the content is longer.
  unfoldable pub fill_segment : ℕ → ℕ → ℕ → ℕ → List ℕ → Machine → Outcome Machine
  unfolding tmp_local_reserve write_from
  fill_segment offset mem_size adr len frames s = do
    (ptr, s₁) ← tmp_local_reserve offset frames s
    s₂ ← write_from mem_size 0 (λ i. 0) ptr s₁
    assert (leb len mem_size)
    write_from len 0 (λ i. l.ramdisk (adr + i)) ptr s₂

  -- An error, if any, with the map and the memory after it.
  abbrev pub Loaded : Type 0
  Loaded = Option ExecResult × MemoryMap × Machine

  -- The frames for `pgn` pages from `page_start` on, filled by `next`.
  unfoldable pub allocate_filled :
      ℕ → ℕ → Flags → (List ℕ → Machine → Outcome Machine) → MemoryMap → Machine → Outcome Loaded
  unfolding allocate
  allocate_filled page_start pgn flags next map s = do
    (result, a, map') ← allocate x z page_start pgn flags s.memory.allocator map
    let s₁ : Machine = record s { memory = record s.memory { allocator = a } }
    elim result [
      | none ↦ ok (some allocation_error, map', s₁)
      | some frames ↦ next frames s₁ >>= (λ s₂. ok (none, map', s₂))
    ]

  -- A header of type `Load`. The address is canonical once it is below `USERSPACE_TOP`.
  unfoldable pub load_segment : ElfFile → ProgramHeader → MemoryMap → Machine → Outcome Loaded
  unfolding slice memory_flags allocate_filled fill_segment
  load_segment elf entry map s =
      if ltb page_size entry.align then ok (some (large_alignment entry.align), map, s) else (do
        end_adr ← checked_add 64 entry.vadr entry.mem_size
        if leb userspace_top end_adr
            then ok (some (insecure_load entry.vadr entry.mem_size), map, s)
            else if ltb tmp_task_size_per_proc entry.mem_size
            then ok (some (large_size entry.mem_size), map, s)
            else (slice elf entry.offset entry.file_size >>= elim [
              | none ↦ ok (some (binary_end entry.offset entry.file_size), map, s)
              | some (adr, len) ↦
                  let page_start = x.containing_address entry.vadr in
                  allocate_filled page_start
                    (x.align_up (entry.mem_size + entry.vadr - page_start) page_size / page_size)
                    (record (memory_flags entry) { user_accessible = true })
                    (fill_segment (entry.vadr - page_start) entry.mem_size adr len) map s
            ]))

  -- The loop over the program headers; other types are passed over.
  unfoldable pub load_all : ElfFile → List ℕ → MemoryMap → Machine → Outcome Loaded
  unfolding load_segment read_program_header
  load_all elf [] map s = ok (none, map, s)
  load_all elf (h ∷ hs) map s =
      let entry = read_program_header l.ramdisk h in
      if entry.ptype == 1
      then (load_segment elf entry map s >>= (λ (error, map', s'). elim error [
        | none ↦ load_all elf hs map' s'
        | some e ↦ ok (some e, map', s')
      ]))
      else load_all elf hs map s

  -- The stack of the task.
  unfoldable pub load_stack : MemoryMap → Machine → Outcome Loaded
  unfolding allocate_filled tmp_local_reserve write_from
  load_stack map s =
      allocate_filled userstack_top (userstack_size / page_size)
        (record no_flags { user_accessible = true; writable = true })
        (λ frames s₁.
          tmp_local_reserve 0 frames s₁
          >>= (λ (ptr, s₂). write_from userstack_size 0 (λ i. 0) ptr s₂))
        map s

  -- The result of `exec`. On an error the map is dropped.
  unfoldable pub finish : ElfFile → Kernel → Loaded → Outcome (ExecResult × Kernel × Machine)
  unfolding drop_mappings new_locked new_procstate
  finish elf k (some e, map, s) =
      drop_mappings map.mappings s.memory.allocator
      >>= (λ a. ok (e, k, record s { memory = record s.memory { allocator = a } }))
  finish elf k (none, map, s) =
      let (k', id) = new_locked k (new_procstate l.ucode_seg l.udata_seg elf.header.entry) map in
      ok (success id, k', s)

  -- `Task::exec`
  unfoldable pub exec : ElfFile → Kernel → Machine → Outcome (ExecResult × Kernel × Machine)
  unfolding load_all load_stack finish iter_progheader new_map
  exec elf k s = do
    (headers, ended) ← iter_progheader elf
    (error, map, s') ← load_all elf headers new_map s
    loaded ← elim error [ none ↦ load_stack map s' | some e ↦ ok (some e, map, s') ]
    finish elf k loaded

  -- `Task::exec_raw`, on the file at an address.
  unfoldable pub exec_raw : ℕ → ℕ → Kernel → Machine → Outcome (ExecResult × Kernel × Machine)
  unfolding exec parse
  exec_raw adr len k s = elim (parse l.ramdisk adr len) [
    | none ↦ ok (parse_error, k, s)
    | some elf ↦ exec elf k s
  ]

  -- `Task::exec_initrd`
  unfoldable pub exec_initrd :
      Option Entries → List ℕ → Kernel → Machine → Outcome (ExecResult × Kernel × Machine)
  unfolding exec_raw open_file
  exec_initrd es path k s =
      open_file es path
      >>= elim [ none ↦ ok (file_error, k, s) | some (adr, len) ↦ exec_raw adr len k s ]
