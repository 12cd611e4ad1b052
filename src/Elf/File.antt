-- ===== src/Elf/File.antt =====
-- Opening a file and its section headers, of src/loader/elf_reader.c.
pub mod Headers
use kobox.Prelude.{
  List, [], add64, if◌then◌else◌, invalid, leb, length, ltb, mul64, not, unsupported, ℕ, ◌&&◌, ◌+◌,
  ◌==◌, ◌||◌,
}
use kobox.Elf.Bytes.{
  Result, ok, err, ◌>>=◌, ◌>>◌, guard, byte, read_u16le, read_u32le, read_u64le, range_fits,
  bounded_section_name,
}

-- kb_elf_file_t; its `size` is the length of `bytes`.
pub record File : Type 0 where
  pub bytes : List ℕ
  pub type : ℕ
  pub machine : ℕ
  pub entry : ℕ
  pub section_header_offset : ℕ
  pub section_header_entry_size : ℕ
  pub section_count : ℕ
  pub section_name_index : ℕ

-- kb_elf_section_t
pub record Section : Type 0 where
  pub name : List ℕ
  pub type : ℕ
  pub flags : ℕ
  pub address : ℕ
  pub offset : ℕ
  pub size : ℕ
  pub link : ℕ
  pub info : ℕ
  pub alignment : ℕ
  pub entry_size : ℕ

abbrev pub header_size : ℕ
header_size = 64

abbrev pub shn_xindex : ℕ
shn_xindex = 0xffff

-- The tests on the identification bytes.
check_ident : List ℕ → Result (Unit {0})
check_ident bytes = do
  m₀ ← byte bytes 0
  m₁ ← byte bytes 1
  m₂ ← byte bytes 2
  m₃ ← byte bytes 3
  guard (m₀ == 0x7f && m₁ == b'E' && m₂ == b'L' && m₃ == b'F') invalid
  class ← byte bytes 4
  order ← byte bytes 5
  version ← byte bytes 6
  guard (class == 2 && order == 1 && version == 1) unsupported

-- The tests on the header's fields.
check_header : ℕ → ℕ → ℕ → ℕ → ℕ → ℕ → Result (Unit {0})
check_header size header entry_size count name_index offset = do
  guard (header == header_size) unsupported
  guard (entry_size == header_size) unsupported
  guard (not (count == 0 || name_index == shn_xindex || leb count name_index)) unsupported
  guard (range_fits size offset (mul64 entry_size count)) invalid

unfoldable pub elf_open : List ℕ → Result File
unfolding check_ident check_header
elf_open bytes = do
  guard (leb header_size (length bytes)) invalid
  check_ident bytes
  entry_size ← read_u16le bytes 58
  count ← read_u16le bytes 60
  name_index ← read_u16le bytes 62
  offset ← read_u64le bytes 40
  header ← read_u16le bytes 52
  check_header (length bytes) header entry_size count name_index offset
  type ← read_u16le bytes 16
  machine ← read_u16le bytes 18
  entry ← read_u64le bytes 24
  ok (record {
    bytes = bytes;
    type = type;
    machine = machine;
    entry = entry;
    section_header_offset = offset;
    section_header_entry_size = entry_size;
    section_count = count;
    section_name_index = name_index;
  })

-- The name of the section whose header is at `at`, by the string table section at `name_at`.
section_name : List ℕ → ℕ → ℕ → Result (List ℕ)
section_name bytes at name_at = do
  strings_offset ← read_u64le bytes (name_at + 24)
  strings_size ← read_u64le bytes (name_at + 32)
  name_offset ← read_u32le bytes at
  if range_fits (length bytes) strings_offset strings_size
      then bounded_section_name bytes strings_offset strings_size name_offset
      else ok []

-- The other fields of the section header at `at`.
read_section : List ℕ → ℕ → List ℕ → Result Section
read_section bytes at name = do
  type ← read_u32le bytes (at + 4)
  flags ← read_u64le bytes (at + 8)
  address ← read_u64le bytes (at + 16)
  offset ← read_u64le bytes (at + 24)
  size ← read_u64le bytes (at + 32)
  link ← read_u32le bytes (at + 40)
  info ← read_u32le bytes (at + 44)
  alignment ← read_u64le bytes (at + 48)
  entry_size ← read_u64le bytes (at + 56)
  ok (record {
    name = name;
    type = type;
    flags = flags;
    address = address;
    offset = offset;
    size = size;
    link = link;
    info = info;
    alignment = alignment;
    entry_size = entry_size;
  })

abbrev pub header_at : File → ℕ → ℕ
header_at f index = add64 f.section_header_offset (mul64 index f.section_header_entry_size)

unfoldable pub elf_section : File → ℕ → Result Section
unfolding section_name read_section
elf_section f index = do
  guard (ltb index f.section_count) invalid
  guard (range_fits (length f.bytes) (header_at f index) header_size) invalid
  guard (range_fits (length f.bytes) (header_at f f.section_name_index) header_size) invalid
  name ← section_name f.bytes (header_at f index) (header_at f f.section_name_index)
  read_section f.bytes (header_at f index) name
