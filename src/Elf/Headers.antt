-- ===== src/Elf/Headers.antt =====
-- The iterator over the program headers.
use native.Mathlib.Nat.{mul-le-mul_right}
use helium_os.Prelude.{
  ℕ, zero, suc, ◌+◌, ◌*◌, ◌^◌, ◌≤◌, ◌<◌, ◌≡◌, refl, ap, ◌∙◌, true, false, none, some, List, [], ◌∷◌,
  ltb, leb, arith, ok,
}
use helium_os.Elf.{ElfFile, next, headers_from, iter_progheader}

-- The addresses of `n` headers from an index on.
abbrev pub table : ElfFile → ℕ → ℕ → List ℕ
table f index zero = []
table f index (suc n) =
    (f.base + f.header.phoff + index * f.header.phent_size) ∷ table f (index + 1) n

-- The whole table of program headers lies below the end of the address space.
abbrev pub Fits : ElfFile → Type 0
Fits f = f.base + f.header.phoff + f.header.pht_len * f.header.phent_size < 2 ^ 64

next-inside :
    (f : ElfFile) (index : ℕ)
    → Fits f
    → index < f.header.pht_len
    → next f index ≡ ok (some (f.base + f.header.phoff + index * f.header.phent_size, index + 1))
unfolding next
next-inside f index h lt =
    let below : index * f.header.phent_size ≤ f.header.pht_len * f.header.phent_size =
      mul-le-mul_right f.header.phent_size (omega (arith, lt)) in
    let first : ltb (f.base + f.header.phoff) (2 ^ 64) ≡ true = ground (arith, h) in
    let fits : ltb (f.base + f.header.phoff + index * f.header.phent_size) (2 ^ 64) ≡ true =
      ground (arith, h, below) in
    let more : leb f.header.pht_len index ≡ false = ground (arith, lt) in
    rw more (rw first (rw fits refl))

next-end : (f : ElfFile) (index : ℕ) → f.header.pht_len ≤ index → next f index ≡ ok none
unfolding next
next-end f index le =
    let over : leb f.header.pht_len index ≡ true = ground (arith, le) in rw over refl

headers_from-table :
    (f : ElfFile) (n index : ℕ)
    → Fits f
    → index + n ≡ f.header.pht_len
    → headers_from (suc n) f index ≡ ok (table f index n, true)
unfolding headers_from
headers_from-table f zero index h e = rw (next-end f index (omega (arith, e))) refl
headers_from-table f (suc n) index h e =
    rw (next-inside f index h (omega (arith, e)))
      (rw (headers_from-table f n (index + 1) h (omega (arith, e))) refl)

-- If the table of program headers fits in the address space, the loop over the iterator does not
-- panic, comes to the iterator's end and sees as many headers as the file header says, each one
-- entry size after the one before.
pub iter_progheader-table :
    (f : ElfFile) → Fits f → iter_progheader f ≡ ok (table f 0 f.header.pht_len, true)
unfolding iter_progheader
iter_progheader-table f h =
    let calls : f.header.pht_len + 1 ≡ suc f.header.pht_len = omega arith in
    ap (λ n. headers_from n f 0) calls ∙ headers_from-table f f.header.pht_len 0 h (omega arith)
