-- ===== src/Apic.antt =====
-- The local APIC and what the ACPI tables say of it, kernel/src/proc/apic/mod.rs and regmap.rs. The
-- registers are a record of their first words; what the hardware answers is an argument.
pub mod Timer
pub mod Tables
use helium_os.Prelude.{
  ℕ, zero, suc, ◌+◌, ◌-◌, ◌*◌, ◌/◌, ◌%◌, ◌^◌, Bool, true, false, ◌&&◌, Option, none, some, List, [],
  ◌∷◌, ◌++◌, length, ltb, leb, ◌==◌, if◌then◌else◌, Outcome, ok, panic, ◌>>=◌, ◌>>◌, assert,
  checked_sub,
}
use helium_os.Platform.{Align, Paging, Indices, no_flags}
use helium_os.Phys.{page_size}
use helium_os.Vcache.{kvmspace}
use helium_os.Mapper.{Memory, map}
use helium_os.Acpi.{
  MadtEntry, local_apic, io_apic, io_apic_interrupt_source_override, local_apic_nmi, other,
  IoApicRedirectionSource, bus, irq, source,
}

pub data TimerMode : Type 0 where
  one_shot : TimerMode
  periodic : TimerMode
  tsc_deadline : TimerMode

abbrev pub mode_number : TimerMode → ℕ
mode_number one_shot = 0
mode_number periodic = 1
mode_number tsc_deadline = 2

-- `LocalApicRegisterMap`, the registers that are used.
pub record LocalApicRegisterMap : Type 0 where
  pub eoireg : ℕ
  pub sivreg : ℕ
  pub lvt_timerreg : ℕ
  pub lvt_lint0reg : ℕ
  pub lvt_lint1reg : ℕ
  pub lvt_errreg : ℕ
  pub initcountreg : ℕ
  pub divcfgreg : ℕ

-- The divider for a power of two. A shift binds before `&`, so that the mask is `0b100 << 3`.
unfoldable pub divider : ℕ → Outcome ℕ
divider divpow =
    if divpow == 0
    then ok 0b1011
    else if leb divpow 7
    then ok ((divpow - 1) / 2 ^ 5 % 2 * 2 ^ 5 + (divpow - 1) % 2 ^ 2)
    else panic

-- `timer_setup`, with a vector of a byte.
unfoldable pub timer_setup : ℕ → TimerMode → ℕ → LocalApicRegisterMap → Outcome LocalApicRegisterMap
unfolding divider
timer_setup vector mode divpow r =
    divider divpow
    >>= (λ d. ok (record r { lvt_timerreg = vector + mode_number mode * 2 ^ 17; divcfgreg = d }))

-- `timer_reset`: the value is cut to 32 bits.
unfoldable pub timer_reset : ℕ → LocalApicRegisterMap → LocalApicRegisterMap
timer_reset init r = record r { initcountreg = init % 2 ^ 32 }

unfoldable pub spurious_setup : ℕ → LocalApicRegisterMap → LocalApicRegisterMap
spurious_setup vector r = record r { sivreg = vector + 2 ^ 8 }

unfoldable pub error_setup : ℕ → LocalApicRegisterMap → LocalApicRegisterMap
error_setup vector r = record r { lvt_errreg = vector }

unfoldable pub lint_setup : ℕ → ℕ → LocalApicRegisterMap → Outcome LocalApicRegisterMap
lint_setup lint flags r =
    if lint == 0
    then ok (record r { lvt_lint0reg = flags })
    else if lint == 1
    then ok (record r { lvt_lint1reg = flags })
    else panic

unfoldable pub eoi : LocalApicRegisterMap → LocalApicRegisterMap
eoi r = record r { eoireg = 0 }

pub data LocalApicNmiConfig : Type 0 where
  all : (lint flags : ℕ) → LocalApicNmiConfig
  specific : (id lint flags : ℕ) → LocalApicNmiConfig

-- `From<&MadtEntryLocalApicNmi> for LocalApicNmiConfig`
unfoldable pub nmi_config : ℕ → ℕ → ℕ → LocalApicNmiConfig
nmi_config id flags lint = if id == 0xFF then all lint flags else specific id lint flags

-- The loop of `init` over the configurations, on the processor `id`.
unfoldable pub setup_lints :
    ℕ → List LocalApicNmiConfig → LocalApicRegisterMap → Outcome LocalApicRegisterMap
unfolding lint_setup
setup_lints id [] r = ok r
setup_lints id (all lint flags ∷ cs) r = lint_setup lint flags r >>= (λ r'. setup_lints id cs r')
setup_lints id (specific i lint flags ∷ cs) r =
    let rest = setup_lints id cs r in
    let done = lint_setup lint flags r >>= (λ r'. setup_lints id cs r') in
    if i == id then done else rest

-- `QUANTUM_MS`
abbrev pub quantum_ms : ℕ
quantum_ms = 100000

-- The vectors of the three interrupts.
pub record Vectors : Type 0 where
  pub timer : ℕ
  pub error : ℕ
  pub spurious : ℕ

-- The end of `init`, once the timer has been seen to go down by `apic_10ms` in ten milliseconds.
unfoldable pub program :
    ℕ → List LocalApicNmiConfig → LocalApicRegisterMap → ℕ → Outcome (ℕ × LocalApicRegisterMap)
unfolding timer_reset setup_lints
program id configs r apic_10ms = do
  assert (ltb (apic_10ms * quantum_ms) (2 ^ 64))
  let quantum = apic_10ms * quantum_ms / 10
  r' ← setup_lints id configs (timer_reset quantum r)
  ok (quantum, r')

-- `init` after the registers were mapped: what the timer showed before and after ten milliseconds
-- is an argument. The result is the quantum.
unfoldable pub init :
    Vectors
    → ℕ
    → List LocalApicNmiConfig
    → ℕ
    → ℕ
    → LocalApicRegisterMap
    → Outcome (ℕ × LocalApicRegisterMap)
unfolding timer_setup spurious_setup error_setup program
init v id configs before after_10ms r =
    timer_setup v.timer periodic 0 (spurious_setup v.spurious (error_setup v.error r))
    >>= (λ r₁. checked_sub before after_10ms >>= (λ apic_10ms. program id configs r₁ apic_10ms))

pub record IoApicInfo : Type 0 where
  pub id : ℕ
  pub irq_base : ℕ
  pub len : ℕ

-- Keys of the map of redirections.
abbrev pub source_eq : IoApicRedirectionSource → IoApicRedirectionSource → Bool
source_eq (bus a) (bus b) = a == b
source_eq (irq a) (irq b) = a == b
source_eq a b = false

abbrev pub Redirections : Type 0
Redirections = List (IoApicRedirectionSource × ℕ)

-- `BTreeMap::insert`
unfoldable pub insert : IoApicRedirectionSource → ℕ → Redirections → Redirections
insert s d [] = (s, d) ∷ []
insert s d ((s', d') ∷ rs) = if source_eq s s' then (s, d) ∷ rs else (s', d') ∷ insert s d rs

-- `VBASE`
abbrev pub vbase : ℕ
vbase = kvmspace + 1024 * 1024 * 1024 * 1024 + 513 * 1024 * 1024 * 1024

module _ (x : Align) (y : Paging) (z : Indices) (maxredent : ℕ → ℕ) where
  -- `NUMCORES`, `IOAPIC`, `IOAPIC_REDIRECTION` and `APIC_CONFIG`, with the memory that the kernel
  -- maps. `maxredent` is what the registers mapped at a page answer.
  pub record Config : Type 0 where
    pub memory : Memory x y z
    pub numcores : ℕ
    pub ioapics : List IoApicInfo
    pub redirections : Redirections
    pub nmis : List LocalApicNmiConfig

  -- `register_ioapic` with `IoApicInfo::new`
  unfoldable pub register_ioapic : ℕ → ℕ → ℕ → Config → Outcome Config
  unfolding map
  register_ioapic ioapicid ioapic_adr gsib c = do
    let vadr = vbase + length c.ioapics * page_size
    assert (ioapic_adr % page_size == 0)
    (result, m) ← map x y z vadr ioapic_adr page_size no_flags c.memory
    elim result [
      | some e ↦ panic
      | none ↦ ok (record c {
        memory = m;
        ioapics =
            c.ioapics ++ (record { id = ioapicid; irq_base = gsib; len = maxredent vadr + 1 } ∷ []);
      })
    ]

  -- One round of the loop of `acpi_handler`. A local APIC counts whether it is enabled or not.
  unfoldable pub handle_entry : MadtEntry → Config → Outcome Config
  unfolding register_ioapic insert nmi_config source
  handle_entry (local_apic procid apicid flags) c = ok (record c { numcores = c.numcores + 1 })
  handle_entry (io_apic ioapicid ioapic_adr gsib) c = register_ioapic ioapicid ioapic_adr gsib c
  handle_entry (io_apic_interrupt_source_override bus_src irq_src gsi flags) c =
      ok (record c { redirections = insert (source bus_src irq_src) gsi c.redirections })
  handle_entry (local_apic_nmi id flags lint) c =
      ok (record c { nmis = c.nmis ++ (nmi_config id flags lint ∷ []) })
  handle_entry (other mtype) c = ok c

  -- `acpi_handler` on the entries of a MADT.
  unfoldable pub acpi_handler : List MadtEntry → Config → Outcome Config
  unfolding handle_entry
  acpi_handler [] c = ok c
  acpi_handler (e ∷ es) c = handle_entry e c >>= (λ c'. acpi_handler es c')
