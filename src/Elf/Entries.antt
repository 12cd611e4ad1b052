-- ===== src/Elf/Entries.antt =====
-- Symbols and relocations of src/loader/elf_reader.c.
pub mod Bounds
mod Tests
use kobox.Prelude.{
  Bool, List, add64, if◌then◌else◌, invalid, length, ltb, mul64, unsupported, ℕ, ◌%◌, ◌&&◌, ◌+◌,
  ◌/◌, ◌==◌, ◌^◌, ◌||◌,
}
use kobox.Elf.Bytes.{
  Result, ok, ◌>>=◌, ◌>>◌, guard, byte, read_u16le, read_u32le, read_u64le, range_fits,
  bounded_section_name,
}
use kobox.Elf.File.{File, Section, elf_section}

-- kb_elf_symbol_t
pub record Symbol : Type 0 where
  pub name : List ℕ
  pub binding : ℕ
  pub type : ℕ
  pub visibility : ℕ
  pub section_index : ℕ
  pub value : ℕ
  pub size : ℕ

-- kb_elf_relocation_t; `addend` is the bit pattern of the signed field.
pub record Relocation : Type 0 where
  pub offset : ℕ
  pub type : ℕ
  pub symbol_index : ℕ
  pub addend : ℕ
  pub has_addend : Bool
  pub target_section_index : ℕ
  pub symbol_table_section_index : ℕ

abbrev pub sht_symtab : ℕ
sht_symtab = 2

abbrev pub sht_strtab : ℕ
sht_strtab = 3

abbrev pub sht_rela : ℕ
sht_rela = 4

abbrev pub sht_rel : ℕ
sht_rel = 9

abbrev pub sht_dynsym : ℕ
sht_dynsym = 11

abbrev pub symbol_size : ℕ
symbol_size = 24

abbrev pub is_symbols : Section → Bool
is_symbols s = s.type == sht_symtab || s.type == sht_dynsym

abbrev pub is_relocations : Section → Bool
is_relocations s = s.type == sht_rela || s.type == sht_rel

-- elf64_rela_size or elf64_rel_size
abbrev pub relocation_size : Section → ℕ
relocation_size s = if s.type == sht_rela then 24 else 16

unfoldable pub elf_symbol_count : File → ℕ → Result ℕ
elf_symbol_count f section_index = do
  s ← elf_section f section_index
  guard (is_symbols s) invalid
  guard (s.entry_size == symbol_size && s.size % symbol_size == 0) unsupported
  guard (range_fits (length f.bytes) s.offset s.size) invalid
  ok (s.size / symbol_size)

-- The fields of the symbol at `at`, its name from the string section.
unfoldable pub read_symbol : List ℕ → Section → ℕ → Result Symbol
read_symbol bytes strings at = do
  name_offset ← read_u32le bytes at
  info ← byte bytes (at + 4)
  name ← bounded_section_name bytes strings.offset strings.size name_offset
  other ← byte bytes (at + 5)
  section_index ← read_u16le bytes (at + 6)
  value ← read_u64le bytes (at + 8)
  size ← read_u64le bytes (at + 16)
  ok (record {
    name = name;
    binding = info / 2 ^ 4;
    type = info % 2 ^ 4;
    visibility = other % 2 ^ 2;
    section_index = section_index;
    value = value;
    size = size;
  })

abbrev pub symbol_at : Section → ℕ → ℕ
symbol_at s index = add64 s.offset (mul64 index symbol_size)

unfoldable pub elf_symbol : File → ℕ → ℕ → Result Symbol
elf_symbol f section_index symbol_index = do
  s ← elf_section f section_index
  guard (is_symbols s) invalid
  guard (s.entry_size == symbol_size && s.size % symbol_size == 0) unsupported
  guard (ltb symbol_index (s.size / symbol_size)) invalid
  guard (ltb s.link f.section_count) invalid
  strings ← elf_section f s.link
  guard (strings.type == sht_strtab) invalid
  guard (range_fits (length f.bytes) strings.offset strings.size) invalid
  guard (range_fits (length f.bytes) (symbol_at s symbol_index) symbol_size) invalid
  read_symbol f.bytes strings (symbol_at s symbol_index)

pub elf_relocation_count : File → ℕ → Result ℕ
elf_relocation_count f section_index = do
  s ← elf_section f section_index
  guard (is_relocations s) invalid
  guard (s.entry_size == relocation_size s && s.size % relocation_size s == 0) unsupported
  guard (range_fits (length f.bytes) s.offset s.size) invalid
  ok (s.size / relocation_size s)

pub read_relocation : List ℕ → Section → ℕ → Result Relocation
read_relocation bytes s at = do
  info ← read_u64le bytes (at + 8)
  offset ← read_u64le bytes at
  addend ← (if s.type == sht_rela then read_u64le bytes (at + 16) else ok 0)
  ok (record {
    offset = offset;
    type = info % 2 ^ 32;
    symbol_index = info / 2 ^ 32;
    has_addend = s.type == sht_rela;
    addend = addend;
    target_section_index = s.info;
    symbol_table_section_index = s.link;
  })

abbrev pub relocation_at : Section → ℕ → ℕ
relocation_at s index = add64 s.offset (mul64 index (relocation_size s))

pub elf_relocation : File → ℕ → ℕ → Result Relocation
elf_relocation f section_index relocation_index = do
  s ← elf_section f section_index
  guard (is_relocations s) invalid
  guard (ltb s.link f.section_count && ltb s.info f.section_count) invalid
  guard (s.entry_size == relocation_size s && s.size % relocation_size s == 0) unsupported
  guard (ltb relocation_index (s.size / relocation_size s)) invalid
  guard (range_fits (length f.bytes) (relocation_at s relocation_index) (relocation_size s)) invalid
  read_relocation f.bytes s (relocation_at s relocation_index)
