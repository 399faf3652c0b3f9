-- ===== src/Proc.antt =====
-- Tasks and processors, kernel/src/proc/task.rs and mod.rs: the data that the scheduler, the
-- address spaces and the system calls share.
-- A task is shared by reference (`Arc<RwLock<Task>>`): the kernel holds a store of tasks, and the
-- task list and the processors hold keys of the store.
pub mod Sched
pub mod AddressSpace
pub mod Syscall
pub mod Load
pub mod Ignition
use helium_os.Prelude.{ℕ, ◌+◌, ◌-◌, ◌*◌, Bool, Option, none, List, []}
use helium_os.Platform.{Flags}

-- `TaskProcState`: the registers of a task while it does not run.
pub record TaskProcState : Type 0 where
  pub rip : ℕ
  pub rflags : ℕ
  pub code_seg : ℕ
  pub data_seg : ℕ
  pub rsp : ℕ
  pub rbp : ℕ
  pub rsi : ℕ
  pub rdi : ℕ
  pub r8 : ℕ
  pub r9 : ℕ
  pub r10 : ℕ
  pub r11 : ℕ
  pub r12 : ℕ
  pub r13 : ℕ
  pub r14 : ℕ
  pub r15 : ℕ
  pub rax : ℕ
  pub rbx : ℕ
  pub rcx : ℕ
  pub rdx : ℕ

-- `USERSTACK_BOTTOM`: `USERSPACE_TOP + 1 - 1024 * 1024`
abbrev pub userstack_bottom : ℕ
userstack_bottom = 0x7fffffffffff + 1 - 1024 * 1024

-- `TaskProcState::new`; the two segments are those of the processor's descriptor table, and 0x200
-- is the interrupt flag.
unfoldable pub new_procstate : ℕ → ℕ → ℕ → TaskProcState
new_procstate ucode_seg udata_seg entrypoint = record {
  rip = entrypoint;
  rflags = 0x200;
  code_seg = ucode_seg;
  data_seg = udata_seg;
  rsp = userstack_bottom;
  rbp = 0;
  rsi = 0;
  rdi = 0;
  r8 = 0;
  r9 = 0;
  r10 = 0;
  r11 = 0;
  r12 = 0;
  r13 = 0;
  r14 = 0;
  r15 = 0;
  rax = 0;
  rbx = 0;
  rcx = 0;
  rdx = 0;
}

pub record MemoryMapping : Type 0 where
  pub vadr : ℕ
  pub padr : ℕ
  pub n : ℕ
  pub flags : Flags
  pub allocated : Bool

pub record MemoryMap : Type 0 where
  pub id : ℕ
  pub mappings : List MemoryMapping

pub data TaskState : Type 0 where
  running : ℕ → TaskState
  pending : TaskState

pub record Task : Type 0 where
  pub id : ℕ
  pub priority : ℕ
  pub procstate : TaskProcState
  pub memory_map : MemoryMap
  pub state : TaskState

-- `ProcInfo`, without what only assembly reads.
pub record ProcInfo : Type 0 where
  pub tick_miss : ℕ
  pub current_task : Option ℕ
  pub schedule_quantum : ℕ
  pub active_mapping : Option ℕ

-- The entry of the processor table that `wakeup` makes, before the timer is calibrated.
unfoldable pub fresh_proc : ProcInfo
fresh_proc = record {
  tick_miss = 0;
  current_task = none;
  schedule_quantum = 0;
  active_mapping = none;
}

-- `TASKS`, `CLOCK`, the counter of `new_locked`, and the store of tasks with its next key.
pub record Kernel : Type 0 where
  pub task : ℕ → Task
  pub next_key : ℕ
  pub tasks : List ℕ
  pub clock : ℕ
  pub idcount : ℕ
