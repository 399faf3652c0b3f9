-- ===== src/Apic/Tables.antt =====
-- What the ACPI handler of kernel/src/proc/apic/mod.rs makes of the table.
use helium_os.Prelude.{ℕ, suc, ◌+◌, ◌*◌, ◌≡◌, if◌then◌else◌, List, [], ◌∷◌, ◌++◌, length, ◌==◌}
use helium_os.Platform.{Align, Paging, Indices}
use helium_os.Acpi.{MadtEntry, local_apic, io_apic, local_apic_nmi}
use helium_os.Apic.{LocalApicNmiConfig, all, specific, IoApicInfo, Config, vbase}

-- How many entries of a table are local APICs.
unfoldable pub local_apics : List MadtEntry → ℕ
local_apics [] = 0
local_apics (local_apic procid apicid flags ∷ es) = suc (local_apics es)
local_apics (e ∷ es) = local_apics es

-- The settings for non-maskable interrupts: one with the number 0xFF is for all processors, another
-- for the processor that it names.
unfoldable pub nmi_settings : List MadtEntry → List LocalApicNmiConfig
nmi_settings [] = []
nmi_settings (local_apic_nmi id flags lint ∷ es) =
    (if id == 0xFF then all lint flags else specific id lint flags) ∷ nmi_settings es
nmi_settings (e ∷ es) = nmi_settings es

-- The I/O APICs, when `n` were registered before: each has the page of its number, and as many lines
-- as its registers there answer, and one more.
unfoldable pub io_apics : (ℕ → ℕ) → ℕ → List MadtEntry → List IoApicInfo
io_apics maxredent n [] = []
io_apics maxredent n (io_apic id adr gsib ∷ es) =
    record { id = id; irq_base = gsib; len = maxredent (vbase + n * 0x1000) + 1 }
    ∷ io_apics maxredent (suc n) es
io_apics maxredent n (e ∷ es) = io_apics maxredent n es

module _ (x : Align) (y : Paging) (z : Indices) (maxredent : ℕ → ℕ) where
  -- The configuration has grown by the entries.
  pub record Grown (es : List MadtEntry) (c c' : Config x y z maxredent) : Type 0 where
    pub cores : c'.numcores ≡ c.numcores + local_apics es
    pub controllers : c'.ioapics ≡ c.ioapics ++ io_apics maxredent (length c.ioapics) es
    pub settings : c'.nmis ≡ c.nmis ++ nmi_settings es

  -- One entry.
  abbrev One : MadtEntry → Config x y z maxredent → Config x y z maxredent → Type 0
  One e c c' = Grown (e ∷ []) c c'

  -- The entries of a list are the first and the others.
  record Splits (e : MadtEntry) (es : List MadtEntry) : Type 0 where
    cores : local_apics (e ∷ es) ≡ local_apics (e ∷ []) + local_apics es
    controllers :
        (n : ℕ)
        → io_apics maxredent n (e ∷ es)
          ≡ io_apics maxredent n (e ∷ [])
            ++ io_apics maxredent (n + length (io_apics maxredent n (e ∷ []))) es
    settings : nmi_settings (e ∷ es) ≡ nmi_settings (e ∷ []) ++ nmi_settings es
