-- ===== src/Elf.antt =====
-- The view of an ELF file, kernel/src/elf.rs. A file lies in memory; memory is a function from
-- addresses to bytes, and a reference is the address it points at. The headers are read field by
-- field at the offsets of their `repr(C)` layouts, least significant byte first.
pub mod Slice
pub mod Headers
use helium_os.Prelude.{
  ℕ, zero, suc, ◌+◌, ◌-◌, ◌*◌, ◌/◌, ◌%◌, ◌^◌, Bool, true, false, ◌&&◌, ◌||◌, Option, none, some,
  List, [], ◌∷◌, ltb, leb, ◌==◌, if◌then◌else◌, Outcome, ok, panic, ◌>>=◌, checked_add,
}
use helium_os.Platform.{Flags, no_flags}

abbrev pub Memory : Type 0
Memory = ℕ → ℕ

-- The number of `n` bytes at an address.
abbrev pub read : ℕ → Memory → ℕ → ℕ
read zero mem adr = 0
read (suc n) mem adr = mem adr + 256 * read n mem (adr + 1)

pub data Class : Type 0 where
  no_class : Class
  class32 : Class
  class64 : Class

-- The discriminants of `repr(u8)`.
abbrev pub class_number : Class → ℕ
class_number no_class = 0
class_number class32 = 1
class_number class64 = 2

pub data Endian : Type 0 where
  no_endian : Endian
  least_significant_byte : Endian
  most_significant_byte : Endian

abbrev pub endian_number : Endian → ℕ
endian_number no_endian = 0
endian_number least_significant_byte = 1
endian_number most_significant_byte = 2

-- `Identification`, the fields that are read. The magic is one number of four bytes.
pub record Identification : Type 0 where
  pub magic : ℕ
  pub class : ℕ
  pub endian : ℕ
  pub version : ℕ

-- The bytes 0x7f, 'E', 'L' and 'F'.
abbrev pub elf_magic : ℕ
elf_magic = 0x7f + 256 * (0x45 + 256 * (0x4c + 256 * 0x46))

-- `Identification::verify`
unfoldable pub verify_id : Identification → Bool
verify_id i =
    i.magic == elf_magic
    && i.class == class_number class64
    && i.endian == endian_number least_significant_byte
    && i.version == 1

-- `FileHeader`, without the fields that nothing reads.
pub record FileHeader : Type 0 where
  pub id : Identification
  pub version : ℕ
  pub entry : ℕ
  pub phoff : ℕ
  pub phent_size : ℕ
  pub pht_len : ℕ

unfoldable pub read_header : Memory → ℕ → FileHeader
read_header mem adr = record {
  id = record {
    magic = read 4 mem adr;
    class = mem (adr + 4);
    endian = mem (adr + 5);
    version = mem (adr + 6);
  };
  version = read 4 mem (adr + 20);
  entry = read 8 mem (adr + 24);
  phoff = read 8 mem (adr + 32);
  phent_size = read 2 mem (adr + 54);
  pht_len = read 2 mem (adr + 56);
}

-- What `VirtAddr::try_new` accepts: bits 47 to 63 are all equal.
unfoldable pub is_canonical : ℕ → Bool
is_canonical adr = adr / 2 ^ 47 == 0 || adr / 2 ^ 47 == 0x1ffff

-- `FileHeader::verify`
unfoldable pub verify : FileHeader → Bool
unfolding verify_id is_canonical
verify h = verify_id h.id && h.version == 1 && is_canonical h.entry

-- `ElfFile`: the header, where it lies, and the size of the file.
pub record ElfFile : Type 0 where
  pub header : FileHeader
  pub base : ℕ
  pub size : ℕ

-- `ElfFile::parse` of the `len` bytes at an address.
unfoldable pub parse : Memory → ℕ → ℕ → Option ElfFile
unfolding verify read_header
parse mem adr len =
    if verify (read_header mem adr)
    then some (record { header = read_header mem adr; base = adr; size = len })
    else none

-- `ElfFile::slice`: the address and the length of a slice of the file.
unfoldable pub slice : ElfFile → ℕ → ℕ → Outcome (Option (ℕ × ℕ))
slice f offset size = do
  end_offset ← checked_add 64 offset size
  ok (if ltb f.size end_offset then none else some (f.base + offset, size))

-- `ProgramHeaderIterator::next` at an index: the address of the header, and the next index.
unfoldable pub next : ElfFile → ℕ → Outcome (Option (ℕ × ℕ))
next f index = if leb f.header.pht_len index then ok none else (do
  table ← checked_add 64 f.base f.header.phoff
  current ← checked_add 64 table (index * f.header.phent_size)
  ok (some (current, index + 1)))

-- A loop over `iter_progheader`, for at most `fuel` calls of `next`: the headers, and whether the
-- iterator has come to its end.
unfoldable pub headers_from : ℕ → ElfFile → ℕ → Outcome (List ℕ × Bool)
unfolding next
headers_from zero f index = ok ([], false)
headers_from (suc fuel) f index = next f index >>= elim [
  | none ↦ ok ([], true)
  | some (current, index') ↦
      headers_from fuel f index' >>= (λ (rest, ended). ok (current ∷ rest, ended))
]

-- One call more than there are headers: the last one finds the end.
unfoldable pub iter_progheader : ElfFile → Outcome (List ℕ × Bool)
unfolding headers_from
iter_progheader f = headers_from (f.header.pht_len + 1) f 0

pub data ProgramType : Type 0 where
  null : ProgramType
  load : ProgramType
  dynamic : ProgramType
  interpreter : ProgramType
  note : ProgramType
  shlib : ProgramType
  prog_header : ProgramType

-- `ProgramHeader`; the type is its number, which may be none of the enumeration's.
pub record ProgramHeader : Type 0 where
  pub ptype : ℕ
  pub flags : ℕ
  pub offset : ℕ
  pub vadr : ℕ
  pub padr : ℕ
  pub file_size : ℕ
  pub mem_size : ℕ
  pub align : ℕ

-- `writable`: bit 1 of the flags.
unfoldable pub writable : ProgramHeader → Bool
writable h = (h.flags / 2) % 2 == 1

unfoldable pub memory_flags : ProgramHeader → Flags
unfolding writable
memory_flags h = if writable h then record no_flags { writable = true } else no_flags

-- The program header at an address.
unfoldable pub read_program_header : Memory → ℕ → ProgramHeader
read_program_header mem adr = record {
  ptype = read 4 mem adr;
  flags = read 4 mem (adr + 4);
  offset = read 8 mem (adr + 8);
  vadr = read 8 mem (adr + 16);
  padr = read 8 mem (adr + 24);
  file_size = read 8 mem (adr + 32);
  mem_size = read 8 mem (adr + 40);
  align = read 8 mem (adr + 48);
}
