-- ===== src/Lib.antt =====
-- HeliumOS: a model of the kernel, kernel/src, and of its system call interface,
-- userspace/syscall/src/lib.rs.
--
-- The program's parts. The boot loader hands over a memory map, from which `phys::init` makes the
-- physical frame allocator. Kernel code maps frames into the kernel's address space through a
-- cache of pages. Tasks are loaded from ELF files in the initial ramdisk, a tar archive; each has
-- an address space whose frames come from the frame allocator, and the scheduler, called by the
-- timer interrupt of each processor, decides which task a processor runs. Tasks call the kernel
-- by system calls.
--
-- The files.
--   Prelude, Word: names, lists, panics; bits of machine words.
--   Platform: the interface of the `x86_64` crate that the kernel relies on, as records of
--     operations and documented laws (rounding of addresses, page-table entries, indices);
--     Platform/Instance has one concrete reading of it, for the tests.
--   Bootboot: `MMapEnt` and its methods, kernel/src/bootboot.rs.
--   Phys: kernel/src/mem/phys.rs. `Segment` is a `SegmentHeader` with the bitmap behind it,
--     `Allocator` the `PhysicalFrameAllocator`; `allocate_frame` and `deallocate_frame` are the
--     methods. Phys/Init is `init`, with a function for each of its loops. Phys/Valid has the
--     invariant, Phys/Frames, Phys/Free and Phys/Release the single operations, Phys/Unique any
--     sequence of them.
--   Vcache: kernel/src/mem/virt/vcache.rs, `VCache` with its state in one record; `map` is split
--     as its loops are.
--     Vcache/Map is `map` with a free page, Vcache/Sweep, Freed, Regain and
--     Reused are `map` without one, and Vcache/Spare is about any number of calls.
--   Tables: page tables in memory, the walk of the processor through them, and what it takes to map
--     one page; Tables/Link and Tables/Fresh have the shape of tables, Tables/Insert the result.
--   Mapper: kernel/src/mem/virt/mapper.rs and mod.rs, and the functions of kernel/src/mem/mod.rs over
--     them. `Memory` has the allocator, the cache, the root and the tables; `ensure_allocated` and
--     `map` reach a table through the frame that the cache maps a page to. Mapper/Cache, Step and
--     Page go from one look at a page to one mapped page, Mapper/Refine and Whole to `map`,
--     Mapper/Setup is `init` of kernel/src/mem/virt/vcache.rs in its two parts, the tables and the
--     cache over them;
--     Mapper/Refuse has the errors, Mapper/Identity `remove_identity`, and Mapper/Header
--     `map_header` of kernel/src/mem/phys.rs.
--     Mapper/Valloc is `valloc`, over any number of pages.
--   Mem: `init` of kernel/src/mem/mod.rs and of kernel/src/mem/virt/mod.rs, which take the parts
--     above in their order; Mem/Whole and Mem/Started are about what is mapped after them.
--   Proc: the data of kernel/src/proc/task.rs and mod.rs. Tasks are shared by reference there, so
--     that `Kernel` has a store of tasks, and the task list and the processors hold keys.
--     Proc/Sched is `tick`, `exit_current` and `new_locked`; Proc/AddressSpace is `MemoryMap`;
--     Proc/Syscall is kernel/src/proc/syscall.rs with the caller's side; Proc/Load is the loader
--     `Task::exec`, with the bytes of memory as a function.
--     Proc/Ignition is the start of the processors, kernel/src/proc/mod.rs, with the descriptor
--     tables of kernel/src/mem/gdt.rs: Areas is about their tables in memory,
--     Stack about stacks, Wakeup about what each processor sets up for itself.
--   Interrupts: kernel/src/interrupts/pic.rs, with the rounds of its loop as an argument.
--   Elf, Tar, Initrd: kernel/src/elf.rs, kernel/src/fs/tar.rs and kernel/src/fs/initrd.rs;
--     Initrd/Mapping is the part of `init` that maps the archive.
--   Acpi: kernel/src/acpi/tables.rs; Acpi/Start has the mapping of tables of kernel/src/acpi/mod.rs
--     and the handlers of kernel/src/cfgtb.rs.
--   Heap: kernel/src/mem/heap.rs and the page fault handler that lets it grow.
--   Framebuffer: kernel/src/dev/framebuffer.rs.
--   Apic: kernel/src/proc/apic/mod.rs and regmap.rs; Apic/Timer is about the timer's registers,
--     Apic/Tables about what the ACPI handler collects.
--   Tests: runs on concrete data.
--
-- How code is modelled. The kernel is built with overflow checks (scripts/build.sh builds the debug
-- profile), so that an arithmetic overflow is a panic, as are a failed assertion, an `unwrap` of
-- nothing and an index out of bounds: `Outcome` is a value or a panic. State is passed explicitly.
-- A lock that may be taken or not at a tick is an argument. Loops are structural recursion on what
-- they iterate over; the loop over program headers has as many rounds as the header announces and
-- one more, and the loop over the ramdisk one round for each 512 bytes of the archive and one
-- more: both are shown to be enough.
--
-- The tables of the cache are kept apart from the other tables, in the cache's record, from its
-- set-up on. What the processor finds inside the window of the cache is therefore not what `lookup`
-- says there: the mapper leaves its pages of the cache present after use. The predicate `IsOutside`
-- has the pages outside the window, and what is said of other pages than the mapped ones is said of
-- these.
--
-- What is not modelled: the flushes of the processor's translation caches, so that a walk always
-- sees the tables as they are; the recursion over the ACPI tables, the loading of segments, the
-- handlers of interrupts, the waiting of processors for one another, and assembly. Printing is
-- left out throughout. Sums of addresses that the allocator forms inside a segment are not checked
-- for 64-bit overflow: physical addresses have at most 52 bits. The walk over the ACPI table of
-- processors takes its number of rounds as an argument, since it need not end.
pub mod Prelude
pub mod Word
pub mod Platform
pub mod Bootboot
pub mod Phys
pub mod Vcache
pub mod Tables
pub mod Mapper
pub mod Framebuffer
pub mod Heap
pub mod Mem
pub mod Interrupts
pub mod Apic
pub mod Proc
pub mod Elf
pub mod Tar
pub mod Initrd
pub mod Acpi
pub mod Tests
