-- ===== src/Tests/Tasks.antt =====
-- A kernel with two tasks, and system calls of one of them.
use helium_os.Prelude.{
  ℕ, ◌+◌, ◌<◌, ◌≡◌, ◌⊎◌, refl, true, false, Option, none, some, [], ◌∷◌, All, get_elem?, arith,
  Outcome, ok, ◌>>=◌,
}
use helium_os.Platform.{no_flags}
use helium_os.Platform.Instance.{align, indices}
use helium_os.Phys.{
  Allocator, magic_value, allocate_frame, allocate_in, allocate_page, check, find_word,
}
use helium_os.Word.Ones.{set_bit, trailing_ones}
use helium_os.Framebuffer.{Framebuffer, word, set_pixel, from_rgb}
use helium_os.Tests.Devices.{screen}
use helium_os.Proc.{
  Task, pending, TaskProcState, ProcInfo, Kernel, MemoryMap, MemoryMapping, new_procstate,
  fresh_proc,
}
use helium_os.Proc.Sched.{tick, dispatch}
use helium_os.Proc.Sched.Select.{is_eligible, IsMax, NoneBefore}
use helium_os.Proc.Sched.Coherent.{Inv, with_current, tick-Inv}
use helium_os.Proc.Sched.Priority.{Taken, dispatch-cases}
use helium_os.Proc.AddressSpace.{
  new_map, add_raw, allocate_from, allocate, apply_all, apply, allocated_page,
}
use helium_os.Proc.AddressSpace.Active.{fresh, grown, apply-second}
use helium_os.Proc.Syscall.{
  Syscall, exit, get_pid, debug_draw, spawn, failed, invalid, Ordinal, enter, returned, try_from,
  write_result, syscall_handle_2,
}
use helium_os.Proc.Syscall.Abi.{try_from-enter, returned-write_result}
use helium_os.Proc.Syscall.Effects.{TakenOut, exit-leaves}

abbrev regs : TaskProcState
regs = new_procstate 0x2b 0x23 0x401000

-- Tasks that wait, the priority of each its key.
abbrev task : ℕ → Task
task r = record {
  id = r + 1;
  priority = r;
  procstate = regs;
  memory_map = new_map;
  state = pending;
}

abbrev waiting : Kernel
waiting = record { task = task; next_key = 2; tasks = 0 ∷ 1 ∷ []; clock = 7; idcount = 2 }

-- A kernel before its first task.
abbrev pub booted : Kernel
booted = record { task = task; next_key = 0; tasks = []; clock = 0; idcount = 0 }

abbrev nobody : ℕ → Option ℕ
nobody c = none

booted-Inv : Inv booted nobody
booted-Inv = record {
  flat = tt;
  listed = tt;
  keys = λ c r e. absurd (ground (arith, e));
  runs = λ c r e. absurd (ground (arith, e));
  alone = λ c d r e f. absurd (ground (arith, e));
}

tick-Inv_example :
    (k' : Kernel) × (p' : ProcInfo) × (tick
        (some (regs, new_map))
        1
        true
        (λ r. true)
        regs
        booted
        fresh_proc
      ≡ ok (k', p'))
    × Inv k' (with_current nobody 0 p'.current_task)
unfolding fresh_proc
tick-Inv_example =
    tick-Inv (some (regs, new_map)) 1 true (λ r. true) regs booted fresh_proc nobody 0
      (λ e. ground (arith, e)) refl booted-Inv

dispatch-cases_example :
    ((dispatch 7 (λ r. true) waiting fresh_proc ≡ ok (waiting, fresh_proc))
      × All (λ r. is_eligible task (λ r. true) r ≡ false) (0 ∷ 1 ∷ []))
    ⊎ ((first r offset : ℕ) × Taken 7 waiting fresh_proc first r
          (dispatch 7 (λ r. true) waiting fresh_proc)
        × (get_elem? (0 ∷ 1 ∷ []) offset ≡ some first)
        × (is_eligible task (λ r. true) first ≡ true)
        × NoneBefore task (λ r. true) offset (0 ∷ 1 ∷ [])
        × (is_eligible task (λ r. true) r ≡ true)
        × IsMax task (λ r. true) r (0 ∷ 1 ∷ [])
        × ((r ≡ first) ⊎ (first < r)))
dispatch-cases_example = dispatch-cases 7 (λ r. true) waiting fresh_proc

-- One segment with one free page.
abbrev allocator : ℕ → Allocator
allocator word = record {
  segments =
      record {
        ptr = 0x1000;
        magic = magic_value;
        address = 0x10000;
        size = 0x1000;
        bitmap = word ∷ [];
      }
      ∷ [];
  size = 32;
  phyframe = 0x1000;
}

abbrev one_page : MemoryMap
one_page = record { id = 0; mappings = allocated_page 0x400000 0 no_flags 0x10000 ∷ [] }

page_allocated :
    allocate align indices 0x400000 1 no_flags (allocator 0xFFFFFFFFFFFFFFFE) new_map
    ≡ ok (some (0x10000 ∷ []), allocator 0xFFFFFFFFFFFFFFFF, one_page)
unfolding allocate allocate_from add_raw new_map allocate_frame allocate_in allocate_page check
    find_word set_bit trailing_ones
page_allocated = refl

abbrev count_mappings : MemoryMapping → ℕ → Outcome ℕ
count_mappings m t = ok (t + 1)

new_applied :
    apply count_mappings new_map fresh_proc 5
    ≡ ok (record fresh_proc { active_mapping = some 0 }, 5)
unfolding apply apply_all new_map fresh_proc
new_applied = refl

apply-second_example :
    apply count_mappings one_page (record fresh_proc { active_mapping = some 0 }) 5
    ≡ ok (record fresh_proc { active_mapping = some 0 }, 5)
apply-second_example =
    apply-second align indices count_mappings fresh_proc 5 fresh
      (grown 0x400000 1 no_flags (allocator 0xFFFFFFFFFFFFFFFE) page_allocated fresh) new_applied

abbrev number : Syscall → ℕ
number (exit code) = 0
number get_pid = 1
number (debug_draw x y r g b) = 2
number (spawn path len) = 3

abbrev ordinal : Ordinal
ordinal = record {
  ordinal = number;
  ordinal-exit = λ code. refl;
  ordinal-get_pid = refl;
  ordinal-debug_draw = λ x y r g b. refl;
  ordinal-spawn = λ path len. refl;
}

try_from-enter_example :
    try_from (enter ordinal (debug_draw 1 2 3 4 5) regs) ≡ some (debug_draw 1 2 3 4 5)
try_from-enter_example = try_from-enter ordinal (debug_draw 1 2 3 4 5) regs

returned-write_result_example : returned (write_result failed regs) ≡ invalid
returned-write_result_example = returned-write_result failed regs

-- A processor that runs task 1, the frame buffer as the screen, and a loader that finds nothing.
abbrev busy : ProcInfo
busy = record { tick_miss = 0; current_task = some 1; schedule_quantum = 0; active_mapping = none }

abbrev draw : ℕ → ℕ → ℕ × ℕ × ℕ → Framebuffer → Outcome Framebuffer
unfolding set_pixel from_rgb
draw x y (r, g, b) fb = set_pixel x y (from_rgb r g b) fb >>= (λ (written, fb'). ok fb')

abbrev no_file : ℕ → ℕ → Kernel → Outcome (Option ℕ × Kernel)
no_file path len k = ok (none, k)

-- The screen after a pixel at column 10 of row 20.
abbrev drawn : Framebuffer
drawn = record screen { lowest_offset = some 51240; highest_offset = some 51244 }

exit-leaves_example :
    (k' : Kernel) × (p' : ProcInfo) × (syscall_handle_2 draw no_file
        (enter ordinal (exit 0) regs)
        (waiting, busy, screen)
      ≡ ok (k', p', screen))
    × (p'.current_task ≡ none)
    × TakenOut task 2 (0 ∷ 1 ∷ []) k'.tasks
exit-leaves_example = exit-leaves draw no_file ordinal 0 regs waiting busy screen 1 refl
