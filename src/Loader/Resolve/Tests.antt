-- ===== src/Loader/Resolve/Tests.antt =====
-- A file whose symbol table has one absolute symbol, named "go".
use kobox.Prelude.{List, [], refl, same_text, ℕ, ◌++◌, ◌∷◌, ◌≡◌}
use kobox.Elf.Image.{little, header, section_header}
use kobox.Elf.Bytes.{ok, byte, read_u16le, read_u32le, read_u64le, range_fits, bounded_section_name}
use kobox.Elf.File.{elf_section}
use kobox.Elf.Entries.{Symbol, elf_symbol, elf_symbol_count, read_symbol}
use kobox.Loader.Resolve.{Module, find_symbol_address}
use kobox.Loader.Resolve.Found.{IsFirst, find_symbol_address-IsFirst}

abbrev image : List ℕ
image =
    header
    ++ (section_header 0 0 0 0 0 0 0
        ++ (section_header 1 3 256 9 0 0 0
            ++ (section_header 1 2 265 24 1 0 24
                ++ (0 ∷ b'.' ∷ b's' ∷ b't' ∷ b'r' ∷ 0 ∷ b'g' ∷ b'o' ∷ 0 ∷ []
                    ++ (little 4 6
                        ++ (16 ∷ 0 ∷ [] ++ (little 2 0xfff1 ++ (little 8 4660 ++ little 8 0))))))))

abbrev loaded : Module
loaded = record {
  elf = record {
    bytes = image;
    type = 1;
    machine = 62;
    entry = 0;
    section_header_offset = 64;
    section_header_entry_size = 64;
    section_count = 3;
    section_name_index = 1;
  };
  sections = [];
  module_percpu_offset = 0;
  module_percpu_size = 0;
}

finds_go : find_symbol_address (λ _. 0) loaded (b'g' ∷ b'o' ∷ []) ≡ ok 4660
unfolding find_symbol_address elf_section elf_symbol elf_symbol_count read_symbol byte read_u16le
    read_u32le read_u64le range_fits bounded_section_name same_text
finds_go = refl

find_symbol_address-IsFirst_example :
    (table : ℕ) × (index : ℕ) × (symbol : Symbol) × IsFirst
      (λ _. 0)
      loaded
      (b'g' ∷ b'o' ∷ [])
      table
      index
      symbol
      4660
find_symbol_address-IsFirst_example =
    find_symbol_address-IsFirst (λ _. 0) loaded (b'g' ∷ b'o' ∷ []) finds_go
