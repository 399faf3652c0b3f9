-- ===== src/Tests/Load.antt =====
-- The loader of tasks, on a ramdisk with one ELF file of no parts, in a memory of three pages, and on a program header.
use helium_os.Prelude.{ℕ, ◌==◌, leb, if◌then◌else◌, ◌≡◌, ◌⊎◌, refl, some, [], ◌∷◌, arith, ok, panic}
use helium_os.Platform.Instance.{align, paging, indices}
use helium_os.Elf.{
  ProgramHeader, slice, parse, read_header, verify, verify_id, is_canonical, iter_progheader,
  headers_from, next,
}
use helium_os.Phys.{
  in_range, allocate_frame, allocate_in, allocate_page, check, find_word, deallocate_frame,
  deallocate_in, release_page,
}
use helium_os.Word.Ones.{set_bit, clear_bit, trailing_ones}
use helium_os.Initrd.{Entries, file, open_file, open_entry, get}
use helium_os.Proc.{MemoryMap}
use helium_os.Proc.AddressSpace.{
  new_map, allocate, allocate_from, add_raw, pfree_all, drop_mappings,
}
use helium_os.Proc.Load.{
  Loading, Machine, allocation_error, load_segment, exec_initrd, exec_raw, exec, load_all,
  load_stack, finish, allocate_filled,
}
use helium_os.Proc.Load.Outcomes.{Ends, EntryAt, exec_initrd-Ends}
use helium_os.Proc.Load.Overlong.{load_segment-overlong}
use helium_os.Tests.Mapper.{memory}
use helium_os.Tests.Files.{elf_file}
use helium_os.Tests.Tasks.{booted}

-- The file at 0x1000: an ELF header with the entry point 0x401000 and no program headers.
abbrev elf_bytes : ℕ → ℕ
elf_bytes adr =
    if adr == 0x1000
    then 0x7f
    else (if adr == 0x1001
        then 0x45
        else (if adr == 0x1002
            then 0x4c
            else (if adr == 0x1003
                then 0x46
                else (if adr == 0x1004
                    then 2
                    else (if leb adr 0x1006
                        then 1
                        else (if adr == 0x1014
                            then 1
                            else (if adr == 0x1019
                                then 0x10
                                else (if adr == 0x101a then 0x40 else 0))))))))

abbrev loading : Loading
loading = record { id = 0; ucode_seg = 0x23; udata_seg = 0x1b; ramdisk = elf_bytes }

abbrev machine : Machine align paging indices loading
machine = record { memory = memory; bytes = λ adr. 0 }

abbrev entries : Entries
entries = (97 ∷ [], file 0x1000 0x200) ∷ []

no_memory :
    exec_initrd align paging indices loading (some entries) (97 ∷ []) booted machine
    ≡ ok (allocation_error, booted, machine)
unfolding exec_initrd exec_raw exec parse read_header verify verify_id is_canonical open_file
    open_entry get load_all load_stack finish iter_progheader headers_from next allocate_filled
    allocate allocate_from add_raw new_map pfree_all drop_mappings allocate_frame allocate_in
    allocate_page check find_word set_bit trailing_ones deallocate_frame deallocate_in release_page
    clear_bit in_range
no_memory = refl

exec_initrd-Ends_example :
    Ends (EntryAt elf_bytes (some entries) (97 ∷ [])) booted (allocation_error, booted, machine)
exec_initrd-Ends_example =
    exec_initrd-Ends align paging indices loading (some entries) (97 ∷ []) booted machine no_memory

found : slice elf_file 0x100 0x200 ≡ ok (some (0x1100, 0x200))
unfolding slice
found = refl

abbrev overlong : ProgramHeader
overlong = record {
  ptype = 1;
  flags = 6;
  offset = 0x100;
  vadr = 0x400000;
  padr = 0;
  file_size = 0x200;
  mem_size = 0x100;
  align = 0x1000;
}

load_segment-overlong_example :
    (load_segment align paging indices loading elf_file overlong new_map machine ≡ panic)
    ⊎ ((m' : MemoryMap) × (s' : Machine align paging indices loading) × (load_segment align paging
            indices loading elf_file overlong new_map machine
          ≡ ok (some allocation_error, m', s')))
load_segment-overlong_example =
    load_segment-overlong align paging indices loading elf_file overlong new_map machine
      (omega arith) (omega arith) (omega arith) found (omega arith)
