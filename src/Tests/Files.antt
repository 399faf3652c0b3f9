-- ===== src/Tests/Files.antt =====
-- An ELF file, a tar header and a ramdisk.
use helium_os.Prelude.{◌≡◌, refl, true, [], ◌∷◌, arith, ok}
use helium_os.Platform.Instance.{align}
use helium_os.Elf.{ElfFile, iter_progheader}
use helium_os.Elf.Headers.{iter_progheader-table}
use helium_os.Tar.{TarHeader, size, ustar_magic}
use helium_os.Tar.Octal.{size_field, size-size_field}
use helium_os.Initrd.{init_map}
use helium_os.Initrd.Termination.{Ends, init_map-Ends}

abbrev pub elf_file : ElfFile
elf_file = record {
  header = record {
    id = record { magic = 0x464c457f; class = 2; endian = 1; version = 1 };
    version = 1;
    entry = 0x401000;
    phoff = 64;
    phent_size = 56;
    pht_len = 2;
  };
  base = 0x1000;
  size = 0x800;
}

iter_progheader-table_example : iter_progheader elf_file ≡ ok (0x1040 ∷ 0x1078 ∷ [], true)
iter_progheader-table_example = iter_progheader-table elf_file (omega arith)

abbrev tar_header : TarHeader
tar_header = record {
  name = 97 ∷ 0 ∷ [];
  size = size_field 1234;
  ftype = 48;
  ustar = ustar_magic;
  name_pref = 0 ∷ [];
}

size-size_field_example : size tar_header ≡ ok 1234
size-size_field_example = size-size_field tar_header 1234 (omega arith) refl

init_map-Ends_example :
    Ends align
      (λ bs. true)
      (λ adr. tar_header)
      (init_map align (λ bs. true) (λ adr. tar_header) 4096)
init_map-Ends_example = init_map-Ends align (λ bs. true) (λ adr. tar_header) 4096
