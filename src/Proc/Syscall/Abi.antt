-- ===== src/Proc/Syscall/Abi.antt =====
-- The caller's and the kernel's side of a system call agree on the registers.
use helium_os.Prelude.{◌≡◌, refl, some}
use helium_os.Proc.{TaskProcState}
use helium_os.Proc.Syscall.{
  Syscall, exit, get_pid, debug_draw, spawn, SyscallResult, success, invalid, failed, Ordinal,
  enter, returned, try_from, write_result,
}

-- The kernel reads from the registers that `call` sets the system call that was made, whatever
-- the other registers hold.
pub try_from-enter :
    (o : Ordinal) (s : Syscall) (regs : TaskProcState) → try_from (enter o s regs) ≡ some s
unfolding try_from enter
try_from-enter o (exit code) regs = rw (o.ordinal-exit code) refl
try_from-enter o get_pid regs = rw o.ordinal-get_pid refl
try_from-enter o (debug_draw x y r g b) regs = rw (o.ordinal-debug_draw x y r g b) refl
try_from-enter o (spawn path len) regs = rw (o.ordinal-spawn path len) refl

-- What the caller sees of a result.
abbrev pub seen : SyscallResult → SyscallResult
seen (success o0 o1 o2 o3 o4 o5) = success o0 o1 o2 o3 o4 o5
seen invalid = invalid
seen failed = invalid

-- The caller gets back the result that the kernel has written, except that `Failed` comes back as
-- `Invalid`.
pub returned-write_result :
    (result : SyscallResult) (regs : TaskProcState)
    → returned (write_result result regs) ≡ seen result
unfolding returned write_result
returned-write_result (success o0 o1 o2 o3 o4 o5) regs = refl
returned-write_result invalid regs = refl
returned-write_result failed regs = refl
