-- ===== src/Acpi/Walk.antt =====
-- The walk over the entries of the MADT.
use helium_os.Prelude.{
  ℕ, zero, suc, ◌+◌, ◌≤◌, ◌<◌, ◌≡◌, inl, inr, refl, ap, ◌∙◌, Bool, true, false, Option, none, some,
  List, [], ◌∷◌, leb, ltb, arith, Bool-cases,
}
use helium_os.Elf.{Memory, read}
use helium_os.Acpi.{MadtEntry, local_apic_nmi, table_len, entry_at, next, entries_from, madt_size}

next-end :
    (mem : Memory) (madt cursor : ℕ) → table_len mem madt ≤ cursor → next mem madt cursor ≡ none
unfolding next
next-end mem madt cursor h =
    let over : leb (table_len mem madt) cursor ≡ true = ground (arith, h) in rw over refl

next-entry :
    (mem : Memory) (madt cursor : ℕ)
    → cursor < table_len mem madt
    → next mem madt cursor ≡ some (entry_at mem (madt + cursor), cursor + mem (madt + cursor + 1))
unfolding next
next-entry mem madt cursor h =
    let within : leb (table_len mem madt) cursor ≡ false = ground (arith, h) in rw within refl

-- What a round makes of the answer of `next`.
abbrev round : ℕ → Memory → ℕ → Option (MadtEntry × ℕ) → List MadtEntry × Bool
round n mem madt answer = elim answer [
  | none ↦ ([], true)
  | some (entry, cursor) ↦
      let (rest, ended) = entries_from n mem madt cursor in (entry ∷ rest, ended)
]

-- The places where the walk reads an entry or ends: the first behind the table's header, and from an
-- entry the one as far on as the entry's length says.
pub data Reached (mem : Memory) (madt : ℕ) : ℕ → Type 0 where
  first : Reached mem madt madt_size
  following :
      {c : ℕ}
      → Reached mem madt c
      → c < table_len mem madt
      → Reached mem madt (c + mem (madt + c + 1))

entries_from_in_time :
    (mem : Memory) (madt n cursor : ℕ)
    → Reached mem madt cursor
    → ((c : ℕ) → Reached mem madt c → c < table_len mem madt → 0 < mem (madt + c + 1))
    → table_len mem madt ≤ cursor + n
    → (entries_from (suc n) mem madt cursor).1 ≡ true
unfolding entries_from
entries_from_in_time mem madt zero cursor at pos h =
    ap (λ o. (round 0 mem madt o).1) (next-end mem madt cursor (omega (arith, h)))
entries_from_in_time mem madt (suc n) cursor at pos h =
    elim (Bool-cases (ltb cursor (table_len mem madt))) [
      | inl more ↦
          let inside : cursor < table_len mem madt = ground (arith, more) in
          ap (λ o. (round (suc n) mem madt o).1) (next-entry mem madt cursor inside)
          ∙ entries_from_in_time mem madt n (cursor + mem (madt + cursor + 1)) (following at inside)
              pos (omega (arith, h, pos cursor at inside))
      | inr past ↦
          ap (λ o. (round (suc n) mem madt o).1) (next-end mem madt cursor (ground (arith, past)))
    ]

-- Where no entry that the walk comes to inside the table has length zero, the walk comes to the end
-- of the table in as many rounds as the table has bytes, and one more.
pub entries_from_terminates :
    (mem : Memory) (madt : ℕ)
    → ((c : ℕ) → Reached mem madt c → c < table_len mem madt → 0 < mem (madt + c + 1))
    → (entries_from (suc (table_len mem madt)) mem madt madt_size).1 ≡ true
entries_from_terminates mem madt pos =
    entries_from_in_time mem madt (table_len mem madt) madt_size first pos (omega arith)

-- At an entry of length zero the walk stays: it does not end in any number of rounds.
entries_from_stuck :
    (mem : Memory) (madt cursor n : ℕ)
    → cursor < table_len mem madt
    → mem (madt + cursor + 1) ≡ 0
    → (entries_from n mem madt cursor).1 ≡ false
unfolding entries_from
entries_from_stuck mem madt cursor zero lt z = refl
entries_from_stuck mem madt cursor (suc n) lt z =
    let still : cursor + mem (madt + cursor + 1) ≡ cursor = omega (arith, z) in
    ap (λ o. (round n mem madt o).1) (next-entry mem madt cursor lt)
    ∙ (ap (λ c. (entries_from n mem madt c).1) still ∙ entries_from_stuck mem madt cursor n lt z)

-- An entry for a non-maskable interrupt is read with 4, its own type, as the processor that it is
-- for.
entry_at-local_apic_nmi :
    (mem : Memory) (adr : ℕ)
    → mem adr ≡ 4
    → (flags lint : ℕ) × (entry_at mem adr ≡ local_apic_nmi 4 flags lint)
unfolding entry_at
entry_at-local_apic_nmi mem adr h = (read 2 mem (adr + 1), mem (adr + 3), rw h refl)
