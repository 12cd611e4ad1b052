-- ===== src/Elf/Modinfo/Tests.antt =====
-- An object file of three sections: the null section, a string table that names the sections, and
-- a .modinfo section with two entries.
use kobox.Prelude.{List, [], arith, refl, same_text, ℕ, ◌++◌, ◌∷◌, ◌≡◌}
use kobox.Elf.Bytes.{
  ok, IsSafe, byte, read_u16le, read_u32le, read_u64le, range_fits, bounded_section_name,
}
use kobox.Elf.File.{File, elf_section}
use kobox.Elf.File.Headers.{IsOpen}
use kobox.Elf.Image.{header, section_header}
use kobox.Elf.Modinfo.{
  Entry, bytes_between, modinfo_bytes, elf_modinfo_entry_count, elf_modinfo_entry,
  elf_modinfo_section,
}
use kobox.Elf.Modinfo.Roundtrip.{AreEntries, encode, elf_modinfo_entry_at}
use kobox.Elf.Modinfo.Loops.{elf_modinfo_entry_count-IsSafe, elf_modinfo_entry-IsSafe}

abbrev image : List ℕ
image =
    header
    ++ (section_header 0 0 0 0 0 0 0
        ++ (section_header 1 3 256 10 0 0 0
            ++ (section_header 0 1 266 9 0 0 0
                ++ (b'.' ∷ b'm' ∷ b'o' ∷ b'd' ∷ b'i' ∷ b'n' ∷ b'f' ∷ b'o' ∷ 0 ∷ 0 ∷ []
                    ++ (b'a' ∷ b'=' ∷ b'1' ∷ 0 ∷ 0 ∷ b'b' ∷ b'c' ∷ b'=' ∷ 0 ∷ [])))))

abbrev opened : File
opened = record {
  bytes = image;
  type = 1;
  machine = 62;
  entry = 0;
  section_header_offset = 64;
  section_header_entry_size = 64;
  section_count = 3;
  section_name_index = 1;
}

abbrev entries : List (ℕ × Entry)
entries =
    (0, record { key = b'a' ∷ []; value = b'1' ∷ [] })
    ∷ (1, record { key = b'b' ∷ b'c' ∷ []; value = [] })
    ∷ []

entries_valid : AreEntries entries
entries_valid = omega arith

section_holds : modinfo_bytes opened 2 ≡ ok (encode entries)
unfolding modinfo_bytes bytes_between elf_section byte read_u16le read_u32le read_u64le range_fits
    bounded_section_name same_text
section_holds = refl

section_found : elf_modinfo_section opened ≡ ok 2
unfolding elf_modinfo_section elf_section byte read_u16le read_u32le read_u64le range_fits
    bounded_section_name same_text
section_found = refl

opened-IsOpen : IsOpen opened
opened-IsOpen = omega arith

elf_modinfo_entry_at_example :
    elf_modinfo_entry opened 2 1 ≡ ok (record { key = b'b' ∷ b'c' ∷ []; value = [] })
elf_modinfo_entry_at_example =
    elf_modinfo_entry_at opened 2 1 entries {p = (1, record { key = b'b' ∷ b'c' ∷ []; value = [] })}
      entries_valid section_holds refl

elf_modinfo_entry_count-IsSafe_example : IsSafe (elf_modinfo_entry_count opened 2)
elf_modinfo_entry_count-IsSafe_example = elf_modinfo_entry_count-IsSafe opened 2 opened-IsOpen

elf_modinfo_entry-IsSafe_example : IsSafe (elf_modinfo_entry opened 2 5)
elf_modinfo_entry-IsSafe_example = elf_modinfo_entry-IsSafe opened 2 5 opened-IsOpen
