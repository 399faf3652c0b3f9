-- ===== src/Initrd/Names.antt =====
-- Looking up what was inserted.
use helium_os.Prelude.{
  ℕ, ◌≡◌, refl, ap, sym, ◌∙◌, true, false, some, List, [], ◌∷◌, if◌then◌else◌, arith, Bool-cases,
  inl, inr,
}
use helium_os.Tar.{bytes_eq}
use helium_os.Initrd.{InitrdEntry, Entries, insert, get}

bytes_eq-eq : (bs cs : List ℕ) → bytes_eq bs cs ≡ true → bs ≡ cs
bytes_eq-eq [] [] h = refl
bytes_eq-eq [] (c ∷ cs) h = absurd (ground (arith, h))
bytes_eq-eq (b ∷ bs) [] h = absurd (ground (arith, h))
bytes_eq-eq (b ∷ bs) (c ∷ cs) h =
    let tails : bs ≡ cs = bytes_eq-eq bs cs (ground (arith, h)) in
    let heads : b ≡ c = ground (arith, h) in rw (heads, tails) refl

bytes_eq_refl : (bs : List ℕ) → bytes_eq bs bs ≡ true
bytes_eq_refl [] = refl
bytes_eq_refl (b ∷ bs) = ground (arith, bytes_eq_refl bs)

-- After an insertion, looking up a path gives the new entry if it is the path inserted, and what
-- was there before if it is another.
get-insert :
    (path path' : List ℕ) (entry : InitrdEntry) (es : Entries)
    → get path' (insert path entry es) ≡ (if bytes_eq path' path then some entry else get path' es)
unfolding get insert
get-insert path path' entry [] = refl
get-insert path path' entry ((q, e) ∷ es) =
    let rest = get-insert path path' entry es in
    elim (Bool-cases (bytes_eq path q)) [
      | inl same ↦
          let eq : bytes_eq path' path ≡ bytes_eq path' q =
            ap (bytes_eq path') (bytes_eq-eq path q same) in
          rw same (ground (arith, eq))
      | inr other ↦ rw other (elim (Bool-cases (bytes_eq path' q)) [
        | inl hit ↦
            let apart : bytes_eq path' path ≡ false = elim (Bool-cases (bytes_eq path' path)) [
              | inl e ↦
                  let eq : path ≡ q = sym (bytes_eq-eq path' path e) ∙ bytes_eq-eq path' q hit in
                  absurd (ground (arith, other, ap (bytes_eq path) eq, bytes_eq_refl path))
              | inr e ↦ e
            ] in
            ground (arith, hit, apart)
        | inr miss ↦ ground (arith, miss, rest)
      ])
    ]
