-- ===== src/Loader/Copy.antt =====
-- The last loop of load_sections in src/loader/module_loader.c, which copies the sections of the
-- file into the image and sets their bases. The image is the list of its bytes, zeroed before; a
-- write outside an object, which C leaves undefined, is the result `fault`. What load_sections
-- writes into the shim region in between is left out.
pub mod Bytes
pub mod Contents
pub mod Loaded
mod Tests
use kobox.Prelude.{
  List, [], drop, get_elem?, if◌then◌else◌, invalid, leb, length, none, not, same_text, set, some,
  suc, take, zero, ℕ, ◌&&◌, ◌+◌, ◌-◌, ◌/=◌, ◌==◌, ◌∷◌,
}
use kobox.Elf.Bytes.{Result, ok, err, fault, ◌>>=◌, ◌>>◌, guard, range_fits}
use kobox.Elf.File.{Section}
use kobox.Loader.Layout.{Place, gs_size, is_allocated, percpu_name}
use kobox.Loader.Layout.Rebased.{with_base}

pub record Image : Type 0 where
  pub bytes : List ℕ
  pub gs : List ℕ
  pub sections : List Place

-- KB_ELF_SHT_NOBITS
abbrev pub sht_nobits : ℕ
sht_nobits = 8

unfoldable pub overwrite : List ℕ → ℕ → List ℕ → List ℕ
overwrite xs o [] = xs
overwrite xs o (y ∷ ys) = overwrite (set xs o y) (o + 1) ys

pub memcpy : List ℕ → ℕ → List ℕ → Result (List ℕ)
unfolding overwrite
memcpy xs o ys = if leb (o + length ys) (length xs) then ok (overwrite xs o ys) else fault

-- The section's bytes in the file.
abbrev pub file_bytes : List ℕ → Section → List ℕ
file_bytes file s = take s.size (drop s.offset file)

pub copy_bytes : List ℕ → Section → ℕ → List ℕ → Result (List ℕ)
unfolding memcpy
copy_bytes file s offset bytes = if s.type == sht_nobits then ok bytes else do
  guard (range_fits (length file) s.offset s.size) invalid
  memcpy bytes offset (file_bytes file s)

-- `percpu_offset` and `percpu_size` are the module's fields; the offset is at most `gs_size`.
pub copy_percpu : List ℕ → ℕ → ℕ → Section → List ℕ → Result (List ℕ)
unfolding memcpy
copy_percpu file percpu_offset percpu_size s gs =
    if not (same_text s.name percpu_name) then ok gs else do
      guard (percpu_offset /= 0 && s.size == percpu_size && leb s.size (gs_size - percpu_offset))
          invalid
      if s.type /= sht_nobits && s.size /= 0
          then memcpy gs percpu_offset (file_bytes file s)
          else ok gs

module _ (base : ℕ) (file : List ℕ) (percpu_offset percpu_size : ℕ) where
  -- A section whose place is `p`.
  pub copy_place : Section → ℕ → Place → Image → Result Image
  unfolding copy_bytes copy_percpu
  copy_place s i p m =
      let sections = set m.sections i (with_base (base + p.offset) p) in
      if p.size == 0 then ok (record m { sections = sections }) else do
        bytes ← copy_bytes file s p.offset m.bytes
        gs ← copy_percpu file percpu_offset percpu_size s m.gs
        ok (record { bytes = bytes; gs = gs; sections = sections })

  -- The loop's body.
  pub copy_section : Section → ℕ → Image → Result Image
  unfolding copy_place
  copy_section s i m =
      if not (is_allocated s.flags)
      then ok m
      else elim (get_elem? m.sections i) [ none ↦ fault | some p ↦ copy_place s i p m ]

  unfoldable pub copy_sections : (ℕ → Result Section) → ℕ → ℕ → Image → Result Image
  unfolding copy_section
  copy_sections section_at zero i m = ok m
  copy_sections section_at (suc n) i m = do
    s ← section_at i
    m' ← copy_section s i m
    copy_sections section_at n (i + 1) m'
