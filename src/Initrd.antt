-- ===== src/Initrd.antt =====
-- The initial ramdisk, kernel/src/fs/initrd.rs. The archive lies in memory from `start` on; what
-- header can be read at an address is a function, and a file's content is its address and length.
-- The map from paths (`BTreeMap`) is an association list with one entry for a path.
pub mod Termination
pub mod Mapping
pub mod Names
use helium_os.Prelude.{
  ℕ, zero, suc, ◌+◌, ◌-◌, ◌*◌, ◌/◌, Bool, true, false, ◌&&◌, ◌||◌, Option, none, some, List, [],
  ◌∷◌, ltb, leb, ◌==◌, if◌then◌else◌, not, Outcome, ok, panic, ◌>>=◌, checked_add,
}
use helium_os.Platform.{Align}
use helium_os.Tar.{
  TarHeader, TarEntryType, file as tar_file, directory as tar_directory, header_size, check, size,
  entry_type, bytes_eq, name as tar_name,
}

-- `INITRD_START`
abbrev pub initrd_start : ℕ
initrd_start = 0xFFFF810000000000

pub data InitrdEntry : Type 0 where
  file : ℕ → ℕ → InitrdEntry
  directory : InitrdEntry

abbrev pub Entries : Type 0
Entries = List (List ℕ × InitrdEntry)

-- `BTreeMap::insert`: the value of a key that is there is replaced.
unfoldable pub insert : List ℕ → InitrdEntry → Entries → Entries
insert path entry [] = (path, entry) ∷ []
insert path entry ((path', entry') ∷ es) =
    if bytes_eq path path' then (path, entry) ∷ es else (path', entry') ∷ insert path entry es

-- `BTreeMap::get`
unfoldable pub get : List ℕ → Entries → Option InitrdEntry
get path [] = none
get path ((path', entry') ∷ es) = if bytes_eq path path' then some entry' else get path es

-- `open`: before the map was made it is a panic.
unfoldable pub open_entry : Option Entries → List ℕ → Outcome (Option InitrdEntry)
unfolding get
open_entry none path = panic
open_entry (some es) path = ok (get path es)

abbrev pub content_of : Option InitrdEntry → Option (ℕ × ℕ)
content_of none = none
content_of (some (file adr len)) = some (adr, len)
content_of (some directory) = none

-- `open_file`
unfoldable pub open_file : Option Entries → List ℕ → Outcome (Option (ℕ × ℕ))
unfolding open_entry
open_file es path = open_entry es path >>= (λ entry. ok (content_of entry))

-- `ends_with("/.")` and `ends_with("/..")`
unfoldable pub is_dots : List ℕ → Bool
is_dots [] = false
is_dots (b ∷ bs) =
    bytes_eq (b ∷ bs) (47 ∷ 46 ∷ []) || bytes_eq (b ∷ bs) (47 ∷ 46 ∷ 46 ∷ []) || is_dots bs

-- The entry for a header of a supported type; the content follows the header.
abbrev pub entry_for : TarEntryType → ℕ → ℕ → InitrdEntry
entry_for tar_file adr len = file (adr + header_size) len
entry_for tar_directory adr len = directory

module _ (x : Align) (is_utf8 : List ℕ → Bool) (header_at : ℕ → TarHeader) (end_adr : ℕ) where
  -- One header: the entry is inserted, unless its type is not supported or its name ends in dots.
  unfoldable pub record_entry : ℕ → ℕ → Entries → Outcome Entries
  unfolding insert is_dots
  record_entry adr entry_size es = elim (entry_type (header_at adr)) [
    | none ↦ ok es
    | some ftype ↦ tar_name is_utf8 (header_at adr) >>= (λ path.
        ok (if is_dots path then es else insert path (entry_for ftype adr entry_size) es))
  ]

  -- The loop of `init_map` from a header on: the entries, and whether it has come to its end in
  -- `fuel` rounds. It ends at the end of the archive, and at a header without the signature.
  unfoldable pub scan_from : ℕ → ℕ → Entries → Outcome (Entries × Bool)
  unfolding record_entry
  scan_from zero adr es = ok (es, false)
  scan_from (suc fuel) adr es =
      if ltb end_adr (adr + header_size) || not (check (header_at adr))
      then ok (es, true)
      else (size (header_at adr) >>= (λ entry_size.
          record_entry adr entry_size es
          >>= (λ es'. scan_from fuel (adr + header_size + x.align_up entry_size 512) es')))

-- `init_map` on an archive of `initrd_size` bytes.
unfoldable pub init_map : Align → (List ℕ → Bool) → (ℕ → TarHeader) → ℕ → Outcome (Entries × Bool)
init_map x is_utf8 header_at initrd_size =
    scan_from x is_utf8 header_at (initrd_start + initrd_size) (initrd_size / 512 + 1) initrd_start
      []
