-- ===== src/Elf/Entries/Bounds.antt =====
-- The reads of symbols and relocations stay inside an opened file, and what is counted is there.
use kobox.Prelude.{
  Bool-cases, List, add64, arith, inl, inr, length, ltb, mul64, refl, true, u64_mod, ℕ, ◌%◌, ◌&&◌,
  ◌+◌, ◌/◌, ◌<◌, ◌==◌, ◌≡◌, ◌≢◌, ◌≤◌, ◌⊎◌,
}
use kobox.Elf.Bytes.{
  ok, fault, byte-ok, read_u16le-ok, read_u32le-ok, read_u64le-ok, range_fits, u32_at,
  bounded_section_name-ok, range_fits-le, le-range_fits, le-range_fits, IsSafe-ends,
}
use kobox.Elf.File.{File, Section, elf_section}
use kobox.Elf.File.Headers.{IsOpen, elf_section-IsSafe}
use kobox.Elf.Entries.{
  Symbol, Relocation, elf_symbol, elf_relocation_count, elf_relocation, read_symbol,
  read_relocation, symbol_size, symbol_at, relocation_size, relocation_at, is_relocations, sht_rela,
}

read_symbol-ok :
    (bytes : List ℕ) (strings : Section) (at : ℕ)
    → strings.offset + strings.size ≤ length bytes
    → at + symbol_size ≤ length bytes
    → (y : Symbol) × (read_symbol bytes strings at ≡ ok y)
unfolding read_symbol
read_symbol-ok bytes strings at h k =
    let (name, e) = bounded_section_name-ok bytes strings.offset strings.size (u32_at bytes at) h in
    rw
      (
        read_u32le-ok bytes at (omega arith),
        byte-ok bytes (at + 4) (omega arith),
        e,
        byte-ok bytes (at + 5) (omega arith),
        read_u16le-ok bytes (at + 6) (omega arith),
        read_u64le-ok bytes (at + 8) (omega arith),
        read_u64le-ok bytes (at + 16) (omega arith),
      )
      (_, refl)

read_relocation-ok :
    (bytes : List ℕ) (s : Section) (at : ℕ)
    → at + relocation_size s ≤ length bytes
    → (r : Relocation) × (read_relocation bytes s at ≡ ok r)
unfolding read_relocation
read_relocation-ok bytes s at h =
    rw (read_u64le-ok bytes (at + 8) (ground arith), read_u64le-ok bytes at (ground arith))
      (elim (Bool-cases (s.type == sht_rela)) [
        | inl rela ↦ rw (rela, read_u64le-ok bytes (at + 16) (ground arith)) (_, refl)
        | inr rel ↦ rw rel (_, refl)
      ])

symbol_in_range :
    (bytes : List ℕ) (strings : Section) (at : ℕ)
    → range_fits (length bytes) strings.offset strings.size ≡ true
    → range_fits (length bytes) at symbol_size ≡ true
    → read_symbol bytes strings at ≢ fault
symbol_in_range bytes strings at h k e =
    let (y, e') = read_symbol-ok bytes strings at (range_fits-le _ _ _ h) (range_fits-le _ _ _ k) in
    cc

relocation_in_range :
    (bytes : List ℕ) (s : Section) (at : ℕ)
    → range_fits (length bytes) at (relocation_size s) ≡ true
    → read_relocation bytes s at ≢ fault
relocation_in_range bytes s at k e =
    let (r, e') = read_relocation-ok bytes s at (range_fits-le _ _ _ k) in cc

-- On an opened file the symbol lookup reads nothing outside the file, whatever the section and
-- symbol indices are and whatever the section headers claim.
pub elf_symbol-ne-fault :
    (f : File) (section_index symbol_index : ℕ)
    → IsOpen f
    → elf_symbol f section_index symbol_index ≢ fault
unfolding elf_symbol
elf_symbol-ne-fault f section_index symbol_index v =
    elim (IsSafe-ends (elf_section-IsSafe f section_index v)) [
      | inr (e, none_here) ↦ ground arith
      | inl (s, here) ↦ elim (IsSafe-ends (elf_section-IsSafe f s.link v)) [
        | inr (e, none_there) ↦ ground arith
        | inl (strings, there) ↦
            ground (arith, symbol_in_range f.bytes strings (symbol_at s symbol_index))
      ]
    ]

-- On an opened file the relocation lookup reads nothing outside the file, whatever the indices
-- are and whatever the section headers claim.
pub elf_relocation-ne-fault :
    (f : File) (section_index relocation_index : ℕ)
    → IsOpen f
    → elf_relocation f section_index relocation_index ≢ fault
unfolding elf_relocation
elf_relocation-ne-fault f section_index relocation_index v =
    elim (IsSafe-ends (elf_section-IsSafe f section_index v)) [
      | inr (e, none_here) ↦ ground arith
      | inl (s, here) ↦
          ground (arith, relocation_in_range f.bytes s (relocation_at s relocation_index))
    ]

-- An entry below the count lies in the section.
entry_inside :
    (offset size width index length : ℕ)
    → (width ≡ 24) ⊎ (width ≡ 16)
    → offset + size ≤ length
    → length < u64_mod
    → index < size / width
    → add64 offset (mul64 index width) + width ≤ length
entry_inside offset size width index length (inl e) fits small lt = rw e (entry_24 lt')
  where
    lt' : index < size / 24
    lt' = rw (← e) lt

    entry_24 : index < size / 24 → add64 offset (mul64 index 24) + 24 ≤ length
    entry_24 h = omega arith
entry_inside offset size width index length (inr e) fits small lt = rw e (entry_16 lt')
  where
    lt' : index < size / 16
    lt' = rw (← e) lt

    entry_16 : index < size / 16 → add64 offset (mul64 index 16) + 16 ≤ length
    entry_16 h = omega arith

widths : (s : Section) → (relocation_size s ≡ 24) ⊎ (relocation_size s ≡ 16)
widths s = ground arith

count_facts :
    (f : File) (section_index count : ℕ) (s : Section)
    → elf_section f section_index ≡ ok s
    → elf_relocation_count f section_index ≡ ok count
    → (is_relocations s ≡ true)
      × ((s.entry_size == relocation_size s && s.size % relocation_size s == 0) ≡ true)
      × (range_fits (length f.bytes) s.offset s.size ≡ true)
      × (count ≡ s.size / relocation_size s)
unfolding elf_relocation_count
count_facts f section_index count s here counted =
    (ground arith, ground arith, ground arith, ground arith)

-- Every relocation below the count that elf_relocation_count returns can be read, if the section's
-- links name sections of the file.
pub elf_relocation_counted :
    (f : File) (section_index count index : ℕ) (s : Section)
    → IsOpen f
    → elf_section f section_index ≡ ok s
    → elf_relocation_count f section_index ≡ ok count
    → s.link < f.section_count
    → s.info < f.section_count
    → index < count
    → (r : Relocation) × (elf_relocation f section_index index ≡ ok r)
unfolding elf_relocation
elf_relocation_counted f section_index count index s v here counted link info lt =
    let (kind, shape, inside, same) = count_facts f section_index count s here counted in
    let below : index < s.size / relocation_size s = omega (arith, same) in
    let at_end =
      entry_inside s.offset s.size (relocation_size s) index (length f.bytes) (widths s)
        (range_fits-le _ _ _ inside) v.small below in
    let (r, e) = read_relocation-ok f.bytes s (relocation_at s index) at_end in
    let linked : (ltb s.link f.section_count && ltb s.info f.section_count) ≡ true = ground arith in
    let low : ltb index (s.size / relocation_size s) ≡ true = ground arith in
    let fits = le-range_fits (length f.bytes) (relocation_at s index) (relocation_size s) at_end in
    (r, rw (here, kind, linked, shape, low, fits) e)
