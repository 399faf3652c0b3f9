-- ===== src/Interrupts.antt =====
-- The legacy interrupt controller and the interval timer, kernel/src/interrupts/pic.rs, and the
-- numbers of interrupts, kernel/src/interrupts/mod.rs. Access to a port is a step of a list; what
-- the timer reads at each round is given.
pub mod Sleep
use helium_os.Prelude.{
  ℕ, zero, suc, ◌+◌, ◌-◌, ◌*◌, ◌^◌, Bool, true, false, ◌&&◌, Option, none, some, List, [], ◌∷◌, leb,
  ltb, if◌then◌else◌, Outcome, ok, panic, ◌>>=◌, checked_sub,
}

-- `Vectors`
pub data Vectors : Type 0 where
  test_interrupt : Vectors
  local_apic_error : Vectors
  local_apic_spurious : Vectors
  local_apic_timer : Vectors

-- `u8::from`
unfoldable pub vector : Vectors → ℕ
vector test_interrupt = 0x20
vector local_apic_error = 0xFD
vector local_apic_spurious = 0xFF
vector local_apic_timer = 0xF0

-- `PIC_MASTER_PORT_CMD`, `PIC_MASTER_PORT_DATA`, `PIC_SLAVE_PORT_CMD` and `PIC_SLAVE_PORT_DATA`
abbrev pub pic_master_port_cmd : ℕ
pic_master_port_cmd = 0x20

abbrev pub pic_master_port_data : ℕ
pic_master_port_data = 0x21

abbrev pub pic_slave_port_cmd : ℕ
pic_slave_port_cmd = 0xA0

abbrev pub pic_slave_port_data : ℕ
pic_slave_port_data = 0xA1

-- A byte written to a port, or `io::wait`.
pub data PortStep : Type 0 where
  write : ℕ → ℕ → PortStep
  wait : PortStep

-- `disable`
unfoldable pub disable : List PortStep
disable =
    write pic_master_port_cmd 0x11
    ∷ write pic_slave_port_cmd 0x11
    ∷ wait
    ∷ write pic_master_port_data 0x20
    ∷ write pic_slave_port_data 0x28
    ∷ wait
    ∷ write pic_master_port_data 4
    ∷ write pic_slave_port_data 2
    ∷ wait
    ∷ write pic_master_port_data 1
    ∷ write pic_slave_port_data 1
    ∷ wait
    ∷ write pic_master_port_data 0xFF
    ∷ write pic_slave_port_data 0xFF
    ∷ wait
    ∷ []

-- `pit_delay`
abbrev pub pit_delay : ℕ
pit_delay = 11933

-- The counter from its two bytes.
unfoldable pub ref_timer : ℕ → ℕ → ℕ
ref_timer lo hi = lo + hi * 2 ^ 8

-- How the loop of `pit_calib_sleep` ends: with the ticks past the delay, or because time went
-- backwards in a virtual machine.
pub data Slept : Type 0 where
  error : ℕ → Slept
  backwards : Slept

-- The loop, from round `i` on; `now i` is what the counter reads then. It is `none` when the rounds
-- are used up.
unfoldable pub sleep_loop : ℕ → Bool → ℕ → (ℕ → ℕ) → ℕ → Option (Outcome Slept)
sleep_loop zero isvm start now i = none
sleep_loop (suc n) isvm start now i =
    let rest = sleep_loop n isvm start now (i + 1) in
    if isvm && ltb start (now i) then some (ok backwards) else elim (checked_sub start (now i)) [
      | panic ↦ some panic
      | ok passed ↦ if leb pit_delay passed then some (ok (error (passed - pit_delay))) else rest
    ]

-- `pit_calib_sleep`: the state of the timer to be calibrated before and after.
unfoldable pub pit_calib_sleep : ℕ → Bool → ℕ → (ℕ → ℕ) → ℕ → ℕ → Option (Outcome (ℕ × ℕ))
unfolding sleep_loop
pit_calib_sleep rounds isvm ref_timer_start now timer_start timer_end =
    elim (sleep_loop rounds isvm ref_timer_start now 0) [
      | none ↦ none
      | some o ↦ some (
          o >>= elim [
            | error e ↦ ok (timer_start, timer_end)
            | backwards ↦ checked_sub timer_start 884248 >>= (λ t. ok (timer_start, t))
          ])
    ]
