-- ===== src/Elf/Slice.antt =====
-- Slices of an ELF file.
use helium_os.Prelude.{
  ℕ, ◌+◌, ◌^◌, ◌≤◌, ◌<◌, ◌≡◌, ◌⊎◌, inl, inr, refl, none, some, ltb, arith, ok, panic, Bool-cases,
}
use helium_os.Elf.{ElfFile, slice}

-- `slice` panics exactly when the end of the slice does not fit in 64 bits; otherwise it is `None`
-- when the slice ends past the file, and else the slice asked for, which lies in the file.
slice-cases :
    (f : ElfFile) (offset size : ℕ)
    → ((2 ^ 64 ≤ offset + size) × (slice f offset size ≡ panic))
      ⊎ ((offset + size < 2 ^ 64)
          × (((f.size < offset + size) × (slice f offset size ≡ ok none))
              ⊎ ((adr : ℕ) × (slice f offset size ≡ ok (some (adr, size)))
                  × (f.base ≤ adr)
                  × (adr + size ≤ f.base + f.size))))
unfolding slice
slice-cases f offset size = elim (Bool-cases (ltb (offset + size) (2 ^ 64))) [
  | inr over ↦ inl (ground (arith, over), rw over refl)
  | inl fits ↦ inr (
    ground (arith, fits),
    elim (Bool-cases (ltb f.size (offset + size))) [
      | inl past ↦ inl (ground (arith, past), rw fits (rw past refl))
      | inr within ↦
          inr (f.base + offset, rw fits (rw within refl), omega arith, ground (arith, within))
    ],
  )
]
