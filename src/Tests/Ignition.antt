-- ===== src/Tests/Ignition.antt =====
-- The tables of two processors, the stack of one, and the sleep for the calibration of timers.
use helium_os.Prelude.{
  ℕ, ◌+◌, ◌-◌, ◌*◌, ◌%◌, ◌^◌, ◌≤◌, ◌<◌, ◌≡◌, ◌⊎◌, inr, false, some, leb, if◌then◌else◌, arith, ok,
  panic, ◌&&◌,
}
use helium_os.Platform.Instance.{align, paging, indices}
use helium_os.Proc.Ignition.{Sizes, allocate_tables, error_stack_size, nmi_stack, tss, stack}
use helium_os.Phys.{in_range}
use helium_os.Phys.Valid.{frame_used}
use helium_os.Tables.Insert.Result.{Exhausted}
use helium_os.Mapper.{Memory}
use helium_os.Tests.Memory.{allocator, empty}
use helium_os.Tests.Mapper.{memory, memory-IsReady}
use helium_os.Proc.Ignition.Areas.{Ignited, all_pages, allocate_tables-Ignited}
use helium_os.Proc.Ignition.Stack.{tss-nmi_stack, stack-top}
use helium_os.Interrupts.{pit_calib_sleep, pit_delay}
use helium_os.Interrupts.Sleep.{pit_calib_sleep-outcome}

abbrev sizes : Sizes
sizes = record { gdt = 88; tss = 104 }

allocate_tables-Ignited_example :
    ((allocate_tables align paging indices sizes 2 memory ≡ panic)
      × Exhausted align (5 * all_pages align paging indices sizes 2) (allocator empty))
    ⊎ ((m' : Memory align paging indices) × (allocate_tables align paging indices sizes 2 memory
          ≡ ok m')
        × Ignited align paging indices sizes 2 memory m')
unfolding frame_used in_range
allocate_tables-Ignited_example =
    allocate_tables-Ignited align paging indices sizes 2 memory-IsReady (λ f w e. ground (arith, e))
      (omega arith) (omega arith) (omega arith)

tss-nmi_stack_example :
    (p : ℕ) × (p ≤ 3) × (nmi_stack p - error_stack_size ≤ tss sizes 3) × (tss sizes 3 < nmi_stack p)
tss-nmi_stack_example = tss-nmi_stack sizes 3 (omega arith)

stack-top_example :
    stack align indices (2 ^ 14) 0xFFFFFFFFFFFFA123 ≡ ok ((2 ^ 64 - 1 * 2 ^ 14) % 2 ^ 64)
stack-top_example =
    stack-top align indices 14 (2 ^ 50) 1 0xFFFFFFFFFFFFA123 (omega arith) (omega arith)
      (omega arith) (omega arith)

-- A counter that goes down by 3000 a round.
abbrev readings : ℕ → ℕ
readings i = 65000 - 3000 * i

pit_calib_sleep-outcome_example :
    ((readings 4 + pit_delay ≤ 65000)
      × (pit_calib_sleep 10 false 65000 readings 7 5 ≡ some (ok (7, 5))))
    ⊎ ((65000 < readings 4)
        × (pit_calib_sleep 10 false 65000 readings 7 5
            ≡ some (if false && leb 884248 7 then ok (7, 7 - 884248) else panic)))
pit_calib_sleep-outcome_example =
    pit_calib_sleep-outcome false 65000 readings 10 4 7 5 (omega arith)
      (λ j lt. record { counted = omega arith; early = omega (arith, lt) }) (inr (omega arith))
