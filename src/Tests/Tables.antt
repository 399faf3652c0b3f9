-- ===== src/Tests/Tables.antt =====
-- An ACPI table in memory.
use helium_os.Prelude.{
  ℕ, suc, ◌+◌, ◌%◌, ◌<◌, ◌≤◌, ◌≡◌, ◌↔◌, ◌⊎◌, inl, inr, refl, true, ◌==◌, if◌then◌else◌, arith,
}
use helium_os.Elf.{Memory}
use helium_os.Acpi.{table_len, verify_checksum, entries_from, madt_size}
use helium_os.Acpi.Checksum.{total, verify_checksum_lem}
use helium_os.Acpi.Walk.{Reached, first, following, entries_from_terminates}

-- A table of 60 bytes at address 0: a local APIC of eight bytes, for processor 0 and enabled, another
-- for processor 1, and no more. All other bytes are 0.
abbrev memory : Memory
memory adr =
    if adr == 4
    then 60
    else (if adr == 45
        then 8
        else (if adr == 48
            then 1
            else (if adr == 53
                then 8
                else (if adr == 54
                    then 1
                    else (if adr == 55 then 1 else (if adr == 56 then 1 else 0))))))

-- The walk comes to no other places than the two entries and the end.
places : (c : ℕ) → Reached memory 0 c → (◌≡◌ {A = ℕ} c 44) ⊎ ((◌≡◌ {A = ℕ} c 52) ⊎ (60 ≤ c))
places c first = inl refl
places c (following {c = d} at lt) = elim (places d at) [
  | inl e ↦ inr (inl (rw e refl))
  | inr (inl e) ↦ inr (inr (rw e (omega arith)))
  | inr (inr past) ↦ inr (inr (omega (arith, past)))
]

long : table_len memory 0 ≡ 60
unfolding table_len
long = refl

lengths_pos : (c : ℕ) → Reached memory 0 c → c < table_len memory 0 → 0 < memory (0 + c + 1)
lengths_pos c at lt = elim (places c at) [
  | inl e ↦ rw e (omega arith)
  | inr (inl e) ↦ rw e (omega arith)
  | inr (inr past) ↦ absurd (omega (arith, past, lt, long))
]

verify_checksum_lem_example :
    (verify_checksum memory 0 ≡ true) ↔ (total memory 0 (table_len memory 0) % 256 ≡ 0)
verify_checksum_lem_example = verify_checksum_lem memory 0

entries_from_terminates_example :
    (entries_from (suc (table_len memory 0)) memory 0 madt_size).1 ≡ true
entries_from_terminates_example = entries_from_terminates memory 0 lengths_pos
