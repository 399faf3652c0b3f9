-- ===== src/Acpi.antt =====
-- The ACPI tables, kernel/src/acpi/tables.rs. A table lies in memory at its address and is read
-- field by field at the offsets of its packed layout.
pub mod Checksum
pub mod Walk
pub mod Start
use helium_os.Prelude.{
  ℕ, zero, suc, ◌+◌, ◌-◌, ◌*◌, ◌/◌, ◌%◌, Bool, true, false, Option, none, some, List, [], ◌∷◌, ltb,
  leb, ◌==◌, not, if◌then◌else◌, Outcome, ok, panic, ◌>>=◌, ◌>>◌, assert, checked_sub,
}
use helium_os.Elf.{Memory, read}

-- `size_of::<AcpiHeader>()`, and the two fields of it that are read.
abbrev pub header_size : ℕ
header_size = 36

unfoldable pub table_len : Memory → ℕ → ℕ
table_len mem adr = read 4 mem (adr + 4)

unfoldable pub signature : Memory → ℕ → ℕ
signature mem adr = read 4 mem adr

-- `fold(0u8, |acc, c| acc.wrapping_add(*c))` over `n` bytes.
unfoldable pub fold_bytes : Memory → ℕ → ℕ → ℕ → ℕ
fold_bytes mem adr zero acc = acc
fold_bytes mem adr (suc n) acc = fold_bytes mem (adr + 1) n ((acc + mem adr) % 256)

-- `AcpiHeader::verify_checksum`
unfoldable pub verify_checksum : Memory → ℕ → Bool
unfolding table_len fold_bytes
verify_checksum mem adr = fold_bytes mem adr (table_len mem adr) 0 == 0

-- The bytes "XSDT" and "APIC".
abbrev pub xsdt_signature : ℕ
xsdt_signature = 0x58 + 256 * (0x53 + 256 * (0x44 + 256 * 0x54))

abbrev pub madt_signature : ℕ
madt_signature = 0x41 + 256 * (0x50 + 256 * (0x49 + 256 * 0x43))

-- `Xsdt::from` and `Madt::from`: the table is the header, after its two assertions.
unfoldable pub table_from : ℕ → Memory → ℕ → Outcome ℕ
unfolding verify_checksum signature
table_from expected mem adr = do
  assert (verify_checksum mem adr)
  assert (signature mem adr == expected)
  ok adr

-- `Xsdt::len`
unfoldable pub xsdt_len : Memory → ℕ → Outcome ℕ
unfolding table_len
xsdt_len mem adr = checked_sub (table_len mem adr) header_size >>= (λ bytes. ok (bytes / 8))

-- `Xsdt::sslist`: the address of a table.
unfoldable pub sslist : Memory → ℕ → ℕ → Outcome ℕ
unfolding xsdt_len
sslist mem adr index = do
  len ← xsdt_len mem adr
  assert (ltb index len)
  ok (read 8 mem (adr + header_size + 8 * index))

-- `MadtEntry`, each with the fields of the structure that its bytes are taken for.
pub data MadtEntry : Type 0 where
  local_apic : (procid apicid flags : ℕ) → MadtEntry
  io_apic : (ioapicid ioapic_adr gsib : ℕ) → MadtEntry
  io_apic_interrupt_source_override : (bus_src irq_src gsi flags : ℕ) → MadtEntry
  local_apic_nmi : (id flags lint : ℕ) → MadtEntry
  other : (mtype : ℕ) → MadtEntry

-- The types of entries that `next` tells apart.
abbrev pub local_apic_type : ℕ
local_apic_type = 0

abbrev pub io_apic_type : ℕ
io_apic_type = 1

abbrev pub source_override_type : ℕ
source_override_type = 2

abbrev pub local_apic_nmi_type : ℕ
local_apic_nmi_type = 4

-- The entry at an address. `MadtEntryLocalApicNmi` is declared without the entry's header, so that
-- its first field lies on the byte of the type.
unfoldable pub entry_at : Memory → ℕ → MadtEntry
entry_at mem adr =
    let mtype = mem adr in
    if mtype == local_apic_type
    then local_apic (mem (adr + 2)) (mem (adr + 3)) (read 4 mem (adr + 4))
    else (if mtype == io_apic_type
        then io_apic (mem (adr + 2)) (read 4 mem (adr + 4)) (read 4 mem (adr + 8))
        else (if mtype == source_override_type
            then io_apic_interrupt_source_override (mem (adr + 2)) (mem (adr + 3))
                (read 4 mem (adr + 4)) (read 2 mem (adr + 8))
            else (if mtype == local_apic_nmi_type
                then local_apic_nmi (mem adr) (read 2 mem (adr + 1)) (mem (adr + 3))
                else other mtype)))

-- `MadtEntryLocalApic::enabled`
unfoldable pub enabled : ℕ → Bool
enabled flags = not (flags == 0)

pub data IoApicRedirectionSource : Type 0 where
  bus : ℕ → IoApicRedirectionSource
  irq : ℕ → IoApicRedirectionSource

-- `MadtEntryIoApicInterruptSourceOverride::source`
unfoldable pub source : ℕ → ℕ → IoApicRedirectionSource
source bus_src irq_src = if not (bus_src == 0) then bus bus_src else irq irq_src

-- `size_of::<Madt>()`, where `Madt::iter` starts.
abbrev pub madt_size : ℕ
madt_size = 44

-- `MadtIterator::next` from a cursor: the entry, and the next cursor.
unfoldable pub next : Memory → ℕ → ℕ → Option (MadtEntry × ℕ)
unfolding entry_at
next mem madt cursor =
    if leb (table_len mem madt) cursor
    then none
    else some (entry_at mem (madt + cursor), cursor + mem (madt + cursor + 1))

-- A loop over `iter` for at most `fuel` rounds: the entries, and whether it has ended.
unfoldable pub entries_from : ℕ → Memory → ℕ → ℕ → List MadtEntry × Bool
unfolding next
entries_from zero mem madt cursor = ([], false)
entries_from (suc fuel) mem madt cursor = elim (next mem madt cursor) [
  | none ↦ ([], true)
  | some (entry, cursor') ↦
      let (rest, ended) = entries_from fuel mem madt cursor' in (entry ∷ rest, ended)
]
