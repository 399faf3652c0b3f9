-- ===== src/Proc/Syscall.antt =====
-- System calls, kernel/src/proc/syscall.rs, and their caller, userspace/syscall/src/lib.rs.
-- What the handlers reach outside this part is an argument: the screen (`debug_set_pixel`), the
-- loader (`Task::exec_initrd`), each of which can panic, and the number of a variant, which the `ordinalizer` crate derives.
pub mod Abi
pub mod Effects
use helium_os.Prelude.{
  ℕ, ◌%◌, ◌^◌, ◌≡◌, Option, none, some, List, Outcome, ok, panic, ◌>>=◌, unwrap, ◌==◌,
  if◌then◌else◌,
}
use helium_os.Proc.{Task, TaskProcState, ProcInfo, Kernel}
use helium_os.Proc.Sched.{with_task, exit_current}

pub data SyscallResult : Type 0 where
  success : ℕ → ℕ → ℕ → ℕ → ℕ → ℕ → SyscallResult
  invalid : SyscallResult
  failed : SyscallResult

pub data Syscall : Type 0 where
  exit : ℕ → Syscall
  get_pid : Syscall
  debug_draw : ℕ → ℕ → ℕ → ℕ → ℕ → Syscall
  spawn : ℕ → ℕ → Syscall

-- What `ordinal()` of the derived trait gives: the position of the variant.
pub record Ordinal : Type 0 where
  pub ordinal : Syscall → ℕ
  pub ordinal-exit : (code : ℕ) → ordinal (exit code) ≡ 0
  pub ordinal-get_pid : ordinal get_pid ≡ 1
  pub ordinal-debug_draw : (x y r g b : ℕ) → ordinal (debug_draw x y r g b) ≡ 2
  pub ordinal-spawn : (path len : ℕ) → ordinal (spawn path len) ≡ 3

-- The arguments that `call` puts in rdi, rsi, rdx, r10, r8 and r9.
unfoldable pub arguments : Syscall → ℕ × ℕ × ℕ × ℕ × ℕ × ℕ
arguments (exit code) = (code, 0, 0, 0, 0, 0)
arguments get_pid = (0, 0, 0, 0, 0, 0)
arguments (debug_draw x y r g b) = (x, y, r, g, b, 0)
arguments (spawn path len) = (path, len, 0, 0, 0, 0)

-- The registers of a task when it enters the kernel by `call`.
unfoldable pub enter : Ordinal → Syscall → TaskProcState → TaskProcState
unfolding arguments
enter o s regs =
    let (io0, io1, io2, io3, io4, io5) = arguments s in
    record regs {
      rax = o.ordinal s;
      rdi = io0;
      rsi = io1;
      rdx = io2;
      r10 = io3;
      r8 = io4;
      r9 = io5;
    }

-- What `call` makes of the registers that it gets back.
unfoldable pub returned : TaskProcState → SyscallResult
returned regs =
    if regs.rax == 0 then success regs.rdi regs.rsi regs.rdx regs.r10 regs.r8 regs.r9 else invalid

-- `Syscall::try_from`; `none` is its `Err(())`.
unfoldable pub try_from : TaskProcState → Option Syscall
try_from regs =
    if regs.rax == 0
    then some (exit regs.rdi)
    else (if regs.rax == 1
        then some get_pid
        else (if regs.rax == 2
            then some (debug_draw regs.rdi regs.rsi regs.rdx regs.r10 regs.r8)
            else (if regs.rax == 3 then some (spawn regs.rdi regs.rsi) else none)))

-- The registers of the task after `syscall_handle_2` has written the result.
unfoldable pub write_result : SyscallResult → TaskProcState → TaskProcState
write_result (success o0 o1 o2 o3 o4 o5) regs = record regs {
  rax = 0;
  rdi = o0;
  rsi = o1;
  rdx = o2;
  r10 = o3;
  r8 = o4;
  r9 = o5;
}
write_result invalid regs = record regs { rax = 1 }
write_result failed regs = record regs { rax = 1 }

-- The kernel, the processor and the screen.
abbrev pub Machine : Type 0 → Type 0
Machine Screen = Kernel × ProcInfo × Screen

-- The result for `ExecResult::Success(id)`, and for all others.
abbrev pub spawned : Option ℕ → SyscallResult
spawned (some id) = success id 0 0 0 0 0
spawned none = failed

-- The registers that a task entered with are saved.
abbrev pub save_entry : Kernel → ℕ → TaskProcState → Kernel
save_entry k r regs = with_task k r (record (k.task r) { procstate = regs })

-- The end of `syscall_handle_2`: a task that has not left gets the result in its registers.
abbrev pub write_task : Option ℕ → SyscallResult → Kernel → Kernel
write_task none result k = k
write_task (some r) result k =
    with_task k r (record (k.task r) { procstate = write_result result (k.task r).procstate })

unfoldable pub write_back : {Screen : Type 0} → SyscallResult × Machine Screen → Machine Screen
write_back (result, (k, p, scr)) = (write_task p.current_task result k, p, scr)

module _ {Screen : Type 0} (debug_set_pixel : ℕ → ℕ → ℕ × ℕ × ℕ → Screen → Outcome Screen)
    (exec_initrd : ℕ → ℕ → Kernel → Outcome (Option ℕ × Kernel)) where
  -- `SyscallHandler::handle`
  unfoldable pub handle : Syscall → Machine Screen → Outcome (SyscallResult × Machine Screen)
  handle (exit code) (k, p, scr) = let (k', p') = exit_current k p in ok (invalid, (k', p', scr))
  handle get_pid (k, p, scr) = do
    r ← unwrap p.current_task
    ok (success (k.task r).id 0 0 0 0 0, (k, p, scr))
  handle (debug_draw x y r g b) (k, p, scr) =
      debug_set_pixel x y (r % 2 ^ 8, g % 2 ^ 8, b % 2 ^ 8) scr
      >>= (λ scr'. ok (success 0 0 0 0 0 0, (k, p, scr')))
  handle (spawn path len) (k, p, scr) =
      exec_initrd path len k >>= (λ (id, k'). ok (spawned id, (k', p, scr)))

  -- The dispatch of `syscall_handle_2`: a number that is no system call is `Invalid`.
  unfoldable pub answer : Option Syscall → Machine Screen → Outcome (SyscallResult × Machine Screen)
  unfolding handle
  answer none m = ok (invalid, m)
  answer (some s) m = handle s m

  -- `syscall_handle_2`; a system call without a current task is a panic.
  unfoldable pub syscall_handle_2 : TaskProcState → Machine Screen → Outcome (Machine Screen)
  unfolding answer write_back
  syscall_handle_2 proc_state (k, p, scr) = unwrap p.current_task >>= (λ r.
      answer (try_from proc_state) (save_entry k r proc_state, p, scr) >>= (λ m. ok (write_back m)))
