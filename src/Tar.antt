-- ===== src/Tar.antt =====
-- The header of an entry of a tar archive, kernel/src/fs/tar.rs.
pub mod Octal
use helium_os.Prelude.{
  ℕ, zero, suc, ◌+◌, ◌-◌, ◌*◌, ◌<◌, Bool, true, false, ◌&&◌, ◌||◌, not, Option, none, some, List,
  [], ◌∷◌, ◌++◌, ltb, leb, ◌==◌, if◌then◌else◌, take, Outcome, ok, panic, ◌>>=◌, unwrap, assert,
  ◌>>◌,
}

-- `TarHeader`, the fields that are read; a field of bytes is the list of its bytes.
pub record TarHeader : Type 0 where
  pub name : List ℕ
  pub size : List ℕ
  pub ftype : ℕ
  pub ustar : List ℕ
  pub name_pref : List ℕ

-- `size_of::<TarHeader>()`: 100 + 8 + 8 + 8 + 12 + 12 + 8 + 1 + 100 + 6 + 2 + 32 + 32 + 8 + 8 + 155
-- + 12.
abbrev pub header_size : ℕ
header_size = 512

pub data TarEntryType : Type 0 where
  file : TarEntryType
  directory : TarEntryType

-- `TarEntryType::try_from` and `entry_type`: the ASCII digits 0 and 5.
unfoldable pub entry_type : TarHeader → Option TarEntryType
entry_type h = if h.ftype == 48 then some file else (if h.ftype == 53 then some directory else none)

abbrev pub bytes_eq : List ℕ → List ℕ → Bool
bytes_eq [] [] = true
bytes_eq [] (c ∷ cs) = false
bytes_eq (b ∷ bs) [] = false
bytes_eq (b ∷ bs) (c ∷ cs) = b == c && bytes_eq bs cs

-- The string "ustar ".
abbrev pub ustar_magic : List ℕ
ustar_magic = 117 ∷ 115 ∷ 116 ∷ 97 ∷ 114 ∷ 32 ∷ []

-- `check`; the signature is valid UTF-8, so bytes that are not do not equal it.
unfoldable pub check : TarHeader → Bool
check h = bytes_eq h.ustar ustar_magic

-- `iter().position(|b| *b == 0)`
abbrev pub position_zero : List ℕ → Option ℕ
position_zero [] = none
position_zero (b ∷ bs) =
    if b == 0 then some 0 else (elim (position_zero bs) [ none ↦ none | some i ↦ some (suc i) ])

-- The bytes before the first zero, at most `full` of them.
abbrev pub up_to_zero : ℕ → List ℕ → List ℕ
up_to_zero full bs = elim (position_zero bs) [ none ↦ take full bs | some i ↦ take i bs ]

-- `name`: a slash, the prefix and the name; `is_utf8` is what `from_utf8` accepts.
unfoldable pub name : (List ℕ → Bool) → TarHeader → Outcome (List ℕ)
name is_utf8 h = do
  let pref = up_to_zero 155 h.name_pref
  let own = up_to_zero 100 h.name
  assert (is_utf8 pref)
  assert (is_utf8 own)
  ok (47 ∷ (pref ++ own))

-- `CStr::from_bytes_with_nul`: the bytes before a zero that is the last and the only one.
unfoldable pub from_bytes_with_nul : List ℕ → Option (List ℕ)
from_bytes_with_nul [] = none
from_bytes_with_nul (b ∷ []) = if b == 0 then some [] else none
from_bytes_with_nul (b ∷ c ∷ bs) =
    if b == 0
    then none
    else (elim (from_bytes_with_nul (c ∷ bs)) [ none ↦ none | some rest ↦ some (b ∷ rest) ])

-- The octal digits of `usize::from_str_radix(_, 8)` after the ones read so far; a number that does
-- not fit in 64 bits is an error.
unfoldable pub octal_digits : ℕ → List ℕ → Option ℕ
octal_digits acc [] = some acc
octal_digits acc (b ∷ bs) =
    if leb 48 b && ltb b 56 && ltb (acc * 8 + (b - 48)) 0x10000000000000000
    then octal_digits (acc * 8 + (b - 48)) bs
    else none

-- `usize::from_str_radix(_, 8)`: one plus sign may stand before the digits, of which there is one
-- at least.
unfoldable pub from_str_radix : List ℕ → Option ℕ
unfolding octal_digits
from_str_radix [] = none
from_str_radix (b ∷ []) = if b == 43 then none else octal_digits 0 (b ∷ [])
from_str_radix (b ∷ c ∷ bs) =
    if b == 43 then octal_digits 0 (c ∷ bs) else octal_digits 0 (b ∷ c ∷ bs)

-- `TarHeader::size`; what is no number is a panic. A string that is not valid UTF-8 is no number.
unfoldable pub size : TarHeader → Outcome ℕ
unfolding from_bytes_with_nul from_str_radix
size h = do digits ← unwrap (from_bytes_with_nul h.size); unwrap (from_str_radix digits)
