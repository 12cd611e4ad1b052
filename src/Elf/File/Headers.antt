-- ===== src/Elf/File/Headers.antt =====
-- Which reads of the ELF file header and section headers stay inside the file.
use kobox.Prelude.{
  All, Bool, Bool-cases, List, Status, [], add64, arith, false, get_or, inl, inr, invalid, leb,
  length, ltb, mul64, not, refl, suc, true, u64_mod, unsupported, zero, ℕ, ◌*◌, ◌+◌, ◌<◌, ◌==◌,
  ◌||◌, ◌∷◌, ◌≡◌, ◌≢◌, ◌≤◌, ◌⊎◌,
}
use kobox.Elf.Bytes.{
  IsSafe, IsSafe-of_ok, refused, Result, ok, guard, ◌>>◌, err, fault, range_fits, byte-ok,
  read_u16le-ok, read_u32le-ok, read_u64le-ok, bounded_section_name-ok, range_fits-le,
  le-range_fits, u16_at, u32_at, u64_at,
}
use kobox.Elf.File.{
  File, Section, header_size, check_ident, check_header, elf_open, section_name, read_section,
  header_at, elf_section,
}

-- What opening a file establishes: the table of section headers lies in the file.
pub record IsOpen (f : File) : Type 0 where
  pub entry_size : f.section_header_entry_size ≡ header_size
  pub table : f.section_header_offset + header_size * f.section_count ≤ length f.bytes
  pub name_index : f.section_name_index < f.section_count
  pub small : length f.bytes < u64_mod

section_name-ok :
    (bytes : List ℕ) (at name_at : ℕ)
    → at + header_size ≤ length bytes
    → name_at + header_size ≤ length bytes
    → (name : List ℕ) × (section_name bytes at name_at ≡ ok name)
unfolding section_name
section_name-ok bytes at name_at h k =
    rw
      (
        read_u64le-ok bytes (name_at + 24) (omega arith),
        read_u64le-ok bytes (name_at + 32) (omega arith),
        read_u32le-ok bytes at (omega arith),
      )
      (elim (Bool-cases
        (range_fits (length bytes) (u64_at bytes (name_at + 24)) (u64_at bytes (name_at + 32)))) [
          | inl fits ↦
              let (name, e) =
                bounded_section_name-ok bytes (u64_at bytes (name_at + 24))
                  (u64_at bytes (name_at + 32)) (u32_at bytes at)
                  (range_fits-le (length bytes) _ _ fits) in
              rw fits (name, e)
          | inr out ↦ rw out ([], refl)
        ])

read_section-ok :
    (bytes : List ℕ) (at : ℕ) (name : List ℕ)
    → at + header_size ≤ length bytes
    → (s : Section) × (read_section bytes at name ≡ ok s)
unfolding read_section
read_section-ok bytes at name h =
    rw
      (
        read_u32le-ok bytes (at + 4) (omega arith),
        read_u64le-ok bytes (at + 8) (omega arith),
        read_u64le-ok bytes (at + 16) (omega arith),
        read_u64le-ok bytes (at + 24) (omega arith),
        read_u64le-ok bytes (at + 32) (omega arith),
        read_u32le-ok bytes (at + 40) (omega arith),
        read_u32le-ok bytes (at + 44) (omega arith),
        read_u64le-ok bytes (at + 48) (omega arith),
        read_u64le-ok bytes (at + 56) (omega arith),
      )
      (_, refl)

in_table :
    (table count index size : ℕ)
    → table + header_size * count ≤ size
    → index < count
    → size < u64_mod
    → add64 table (mul64 index header_size) + header_size ≤ size
in_table table count index size h lt small = omega arith

header_at-le :
    (f : File) (index : ℕ)
    → IsOpen f
    → index < f.section_count
    → header_at f index + header_size ≤ length f.bytes
header_at-le f index v h =
    rw v.entry_size
      (in_table f.section_header_offset f.section_count index (length f.bytes) v.table h v.small)

-- The header of every section of an opened file can be read: the code returns KB_OK, and no read
-- leaves the file.
elf_section_total :
    (f : File) (index : ℕ)
    → IsOpen f
    → index < f.section_count
    → (s : Section) × (elf_section f index ≡ ok s)
unfolding elf_section
elf_section_total f index v h =
    let here = header_at-le f index v h in
    let there = header_at-le f f.section_name_index v v.name_index in
    let (name, e) =
      section_name-ok f.bytes (header_at f index) (header_at f f.section_name_index) here there in
    let (s, e') = read_section-ok f.bytes (header_at f index) name here in
    let lt : ltb index f.section_count ≡ true = ground arith in
    rw
      (
        lt,
        le-range_fits (length f.bytes) (header_at f index) header_size here,
        le-range_fits (length f.bytes) (header_at f f.section_name_index) header_size there,
        e,
        e',
      )
      (s, refl)

two_guards :
    (a b : Bool)
    → ((guard a invalid >> guard b unsupported) ≡ ok tt)
      ⊎ ((e : Status) × ((guard a invalid >> guard b unsupported) ≡ err e))
two_guards true true = inl refl
two_guards true false = inr (unsupported, refl)
two_guards false b = inr (invalid, refl)

check_ident-ends :
    (bytes : List ℕ)
    → header_size ≤ length bytes
    → (check_ident bytes ≡ ok tt) ⊎ ((e : Status) × (check_ident bytes ≡ err e))
unfolding check_ident
check_ident-ends bytes h =
    rw
      (
        byte-ok bytes 0 (omega arith),
        byte-ok bytes 1 (omega arith),
        byte-ok bytes 2 (omega arith),
        byte-ok bytes 3 (omega arith),
        byte-ok bytes 4 (omega arith),
        byte-ok bytes 5 (omega arith),
        byte-ok bytes 6 (omega arith),
      )
      (two_guards _ _)

check_header-ends :
    (size header entry_size count name_index offset : ℕ)
    → ((check_header size header entry_size count name_index offset ≡ ok tt)
        × (entry_size ≡ header_size)
        × (name_index < count)
        × (offset + mul64 entry_size count ≤ size))
      ⊎ ((e : Status) × (check_header size header entry_size count name_index offset ≡ err e))
unfolding check_header
check_header-ends size header entry_size count name_index offset =
    elim (Bool-cases (header == header_size)) [
      | inr a ↦ rw a (inr (unsupported, refl))
      | inl a ↦ elim (Bool-cases (entry_size == header_size)) [
        | inr b ↦ rw (a, b) (inr (unsupported, refl))
        | inl b ↦
            elim (Bool-cases (not (count == 0 || name_index == 0xffff || leb count name_index))) [
              | inr c ↦ rw (a, b, c) (inr (unsupported, refl))
              | inl c ↦ elim (Bool-cases (range_fits size offset (mul64 entry_size count))) [
                | inr d ↦ rw (a, b, c, d) (inr (invalid, refl))
                | inl d ↦
                    inl (rw (a, b, c, d), ground arith, ground arith, range_fits-le size offset _ d)
              ]
            ]
      ]
    ]

-- The header as the reads give it.
abbrev opened : List ℕ → File
opened bytes = record {
  bytes = bytes;
  type = u16_at bytes 16;
  machine = u16_at bytes 18;
  entry = u64_at bytes 24;
  section_header_offset = u64_at bytes 40;
  section_header_entry_size = u16_at bytes 58;
  section_count = u16_at bytes 60;
  section_name_index = u16_at bytes 62;
}

abbrev header_check : List ℕ → Result (Unit {0})
header_check bytes =
    check_header (length bytes) (u16_at bytes 52) (u16_at bytes 58) (u16_at bytes 60)
      (u16_at bytes 62) (u64_at bytes 40)

elf_open-short :
    (bytes : List ℕ) → leb header_size (length bytes) ≡ false → elf_open bytes ≡ err invalid
unfolding elf_open
elf_open-short bytes short = rw short

elf_open-reads :
    (bytes : List ℕ)
    → header_size ≤ length bytes
    → elf_open bytes ≡ (check_ident bytes >> (header_check bytes >> ok (opened bytes)))
unfolding elf_open
elf_open-reads bytes h =
    let long : leb header_size (length bytes) ≡ true = ground arith in
    rw (
      long,
      read_u16le-ok bytes 58 (omega arith),
      read_u16le-ok bytes 60 (omega arith),
      read_u16le-ok bytes 62 (omega arith),
      read_u64le-ok bytes 40 (omega arith),
      read_u16le-ok bytes 52 (omega arith),
      read_u16le-ok bytes 16 (omega arith),
      read_u16le-ok bytes 18 (omega arith),
      read_u64le-ok bytes 24 (omega arith),
    )

elf_open-ends :
    (bytes : List ℕ)
    → ((elf_open bytes ≡ ok (opened bytes))
        × (u16_at bytes 58 ≡ header_size)
        × (u16_at bytes 62 < u16_at bytes 60)
        × (u64_at bytes 40 + mul64 (u16_at bytes 58) (u16_at bytes 60) ≤ length bytes))
      ⊎ ((e : Status) × (elf_open bytes ≡ err e))
elf_open-ends bytes = elim (Bool-cases (leb header_size (length bytes))) [
  | inr short ↦ inr (invalid, elf_open-short bytes short)
  | inl long ↦
      rw (elf_open-reads bytes (ground arith)) (elim (check_ident-ends bytes (ground arith)) [
        | inr (e, no_ident) ↦ rw no_ident (inr (e, refl))
        | inl ident ↦
            elim (check_header-ends (length bytes) (u16_at bytes 52) (u16_at bytes 58)
              (u16_at bytes 60) (u16_at bytes 62) (u64_at bytes 40)) [
                | inr (e, no_header) ↦ rw (ident, no_header) (inr (e, refl))
                | inl (header, entry, name, fits) ↦
                    rw (ident, header) (inl (refl, entry, name, fits))
              ]
      ])
]

-- A byte has eight bits.
abbrev pub AreBytes : List ℕ → Type 0
AreBytes = All λ b. b < 256

get_or-byte : (bytes : List ℕ) (i : ℕ) → AreBytes bytes → get_or bytes i 0 < 256
get_or-byte [] i v = omega arith
get_or-byte (b ∷ bytes) zero v = v.0
get_or-byte (b ∷ bytes) (suc i) v = get_or-byte bytes i v.1

-- Fewer than 2^64 bytes that open as a file have the whole table of section headers inside them,
-- 64 bytes for each section, and the index of the section name table below the number of sections.
pub elf_open-IsOpen :
    (bytes : List ℕ) {f : File}
    → AreBytes bytes
    → length bytes < u64_mod
    → elf_open bytes ≡ ok f
    → IsOpen f
elf_open-IsOpen bytes {f} are small h = elim (elf_open-ends bytes) [
  | inr (e, no_file) ↦ absurd (cc)
  | inl (file, entry, name, fits) ↦
      ground (arith, get_or-byte bytes 60 are, get_or-byte bytes 61 are)
]

-- Opening never reads outside the bytes that it is given, whatever they are.
elf_open-safe : (bytes : List ℕ) → elf_open bytes ≢ fault
elf_open-safe bytes h = elim (elf_open-ends bytes) [
  | inr (e, no_file) ↦ absurd (cc)
  | inl (file, entry, name, fits) ↦ absurd (cc)
]

elf_section-past :
    (f : File) (index : ℕ) → ltb index f.section_count ≡ false → elf_section f index ≡ err invalid
unfolding elf_section
elf_section-past f index h = rw h

pub elf_section-IsSafe : (f : File) (index : ℕ) → IsOpen f → IsSafe (elf_section f index)
elf_section-IsSafe f index v = elim (Bool-cases (ltb index f.section_count)) [
  | inl h ↦ IsSafe-of_ok (elf_section_total f index v (ground arith))
  | inr h ↦ rw (elf_section-past f index h) (refused invalid)
]
