-- ===== src/Elf.antt =====
-- src/loader/elf_reader.c: the reader of ELF64 little-endian object files. A pointer that the code
-- checks for NULL is a value here, so those checks have no counterpart.
pub mod Bytes
pub mod File
pub mod Image
pub mod Entries
pub mod Modinfo
