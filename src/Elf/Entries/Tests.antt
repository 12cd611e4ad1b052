-- ===== src/Elf/Entries/Tests.antt =====
-- An object file of three sections: the null section, a string table that names the sections, and
-- relocations with one entry.
use kobox.Prelude.{List, [], arith, refl, ℕ, ◌*◌, ◌++◌, ◌+◌, ◌^◌, ◌∷◌, ◌≡◌, ◌≢◌}
use kobox.Elf.Image.{little, header, section_header}
use kobox.Elf.Bytes.{
  ok, fault, byte, read_u16le, read_u32le, read_u64le, range_fits, bounded_section_name,
}
use kobox.Elf.File.{File, Section, elf_open, elf_section}
use kobox.Elf.File.Headers.{IsOpen, elf_open-IsOpen}
use kobox.Elf.Entries.{Relocation, elf_relocation, elf_relocation_count, elf_symbol}
use kobox.Elf.Entries.Bounds.{elf_symbol-ne-fault, elf_relocation-ne-fault, elf_relocation_counted}

abbrev image : List ℕ
image =
    header
    ++ (section_header 0 0 0 0 0 0 0
        ++ (section_header 1 3 256 6 0 0 0
            ++ (section_header 1 4 262 24 1 1 24
                ++ (0 ∷ b'.' ∷ b's' ∷ b't' ∷ b'r' ∷ 0 ∷ []
                    ++ (little 8 16 ++ (little 8 (5 * 2 ^ 32 + 2) ++ little 8 7))))))

abbrev opened : File
opened = record {
  bytes = image;
  type = 1;
  machine = 62;
  entry = 0;
  section_header_offset = 64;
  section_header_entry_size = 64;
  section_count = 3;
  section_name_index = 1;
}

image_opens : elf_open image ≡ ok opened
unfolding elf_open byte read_u16le read_u32le read_u64le range_fits
image_opens = refl

elf_open-IsOpen_example : IsOpen opened
unfolding elf_open byte read_u16le read_u32le read_u64le range_fits
elf_open-IsOpen_example = elf_open-IsOpen image (omega arith) (omega arith) image_opens

opened-IsOpen : IsOpen opened
opened-IsOpen = omega arith

elf_symbol-ne-fault_example : elf_symbol opened 2 7 ≢ fault
elf_symbol-ne-fault_example = elf_symbol-ne-fault opened 2 7 opened-IsOpen

elf_relocation-ne-fault_example : elf_relocation opened 2 0 ≢ fault
elf_relocation-ne-fault_example = elf_relocation-ne-fault opened 2 0 opened-IsOpen

abbrev relocations : Section
relocations = record {
  name = b'.' ∷ b's' ∷ b't' ∷ b'r' ∷ [];
  type = 4;
  flags = 0;
  address = 0;
  offset = 262;
  size = 24;
  link = 1;
  info = 1;
  alignment = 0;
  entry_size = 24;
}

elf_relocation_counted_example : (r : Relocation) × (elf_relocation opened 2 0 ≡ ok r)
unfolding elf_section elf_relocation_count byte read_u32le read_u64le range_fits
    bounded_section_name
elf_relocation_counted_example =
    elf_relocation_counted opened 2 1 0 relocations opened-IsOpen refl refl (omega arith)
      (omega arith) (omega arith)
