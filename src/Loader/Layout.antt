-- ===== src/Loader/Layout.antt =====
-- Where the sections of a module go, of src/loader/module_loader.c: the first loop of load_sections,
-- which lays the sections out in one image, and the size of the image with the shim region behind
-- it. Built for x86-64 Linux. `page` is the page size, `section_at` is kb_elf_section on the module's
-- file.
pub mod Align
pub mod Placed
pub mod Step
pub mod Laid
pub mod Rebased
pub mod From
pub mod Tests
use Prim.Native.Nat.{bit_and}
use kobox.Prelude.{
  Bool, List, Option, [], add64, false, if◌then◌else◌, invalid, leb, ltb, no_memory, none, not,
  replicate, same_text, set, some, suc, u64_mod, zero, ℕ, ◌%◌, ◌&&◌, ◌*◌, ◌+◌, ◌-◌, ◌/=◌, ◌/◌, ◌==◌,
  ◌∷◌,
}
use kobox.Elf.Bytes.{Result, ok, err, ◌>>=◌, ◌>>◌, guard}
use kobox.Elf.File.{Section}

-- loaded_section_t; its base is NULL until the section is copied.
pub record Place : Type 0 where
  pub base : ℕ
  pub offset : ℕ
  pub size : ℕ
  pub alignment : ℕ
  pub flags : ℕ

abbrev pub no_place : Place
no_place = record { base = 0; offset = 0; size = 0; alignment = 0; flags = 0 }

-- What the loop changes: its variables, the module's fields and kb_shared_kernel_percpu_next. The
-- protection is none for -1.
pub record Layout : Type 0 where
  pub image_size : ℕ
  pub previous_protection : Option ℕ
  pub percpu_next : ℕ
  pub module_percpu_offset : ℕ
  pub module_percpu_size : ℕ
  pub sections : List Place

-- KB_LOCAL_GS_SIZE
abbrev pub gs_size : ℕ
gs_size = 1024 * 1024

-- KB_LOCAL_SHIM_REGION_SIZE
abbrev pub shim_region_size : ℕ
shim_region_size = 48 * 4096 + 32768

-- ".data..percpu"
abbrev pub percpu_name : List ℕ
percpu_name = 46 ∷ 100 ∷ 97 ∷ 116 ∷ 97 ∷ 46 ∷ 46 ∷ 112 ∷ 101 ∷ 114 ∷ 99 ∷ 112 ∷ 117 ∷ []

-- `(value + mask) & ~mask`
unfoldable pub align_up64 : ℕ → ℕ → ℕ
align_up64 value alignment =
    let mask = alignment - 1 in
    if alignment == 0 then value else bit_and (add64 value mask) (u64_mod - 1 - mask)

-- KB_ELF_SHF_WRITE, KB_ELF_SHF_ALLOC and KB_ELF_SHF_EXECINSTR are the lowest three bits.
abbrev pub is_writable : ℕ → Bool
is_writable flags = flags % 2 == 1

abbrev pub is_allocated : ℕ → Bool
is_allocated flags = flags / 2 % 2 == 1

abbrev pub is_executable : ℕ → Bool
is_executable flags = flags / 4 % 2 == 1

abbrev pub section_protection : ℕ → ℕ
section_protection flags = if is_executable flags then 2 else if is_writable flags then 1 else 0

pub protection_changes : Option ℕ → ℕ → Bool
protection_changes none protection = false
protection_changes (some previous) protection = protection /= previous

pub place_percpu : Section → ℕ → Layout → Result Layout
place_percpu s alignment l = do
  guard (l.module_percpu_offset == 0) invalid
  let offset = align_up64 l.percpu_next (if ltb alignment 8 then 8 else alignment)
  guard (leb offset gs_size && leb s.size (gs_size - offset)) no_memory
  ok (record l {
    module_percpu_offset = offset;
    module_percpu_size = s.size;
    percpu_next = offset + s.size;
  })

-- The offset that a section gets.
pub section_offset : ℕ → Section → Layout → ℕ
unfolding protection_changes
section_offset page s l =
    let changed = protection_changes l.previous_protection (section_protection s.flags) in
    let image = if changed then align_up64 l.image_size page else l.image_size in
    align_up64 image (if s.alignment == 0 then 1 else s.alignment)

-- The rest of the loop's body.
pub write_place : ℕ → ℕ → Section → Layout → Layout
write_place offset i s l = record l {
  image_size = add64 offset s.size;
  previous_protection =
      if s.size == 0 then l.previous_protection else some (section_protection s.flags);
  sections = set l.sections i (record {
    base = 0;
    offset = offset;
    size = s.size;
    alignment = if s.alignment == 0 then 1 else s.alignment;
    flags = s.flags;
  });
}

-- The loop's body.
pub place_section : ℕ → ℕ → Section → Layout → Result Layout
unfolding place_percpu section_offset write_place
place_section page i s l = if not (is_allocated s.flags) then ok l else do
  let alignment = if s.alignment == 0 then 1 else s.alignment
  l' ← (if same_text s.name percpu_name then place_percpu s alignment l else ok l)
  ok (write_place (section_offset page s l) i s l')

-- The zeroed array of sections; `percpu_next` is what earlier modules left.
abbrev pub start_layout : ℕ → ℕ → Layout
start_layout section_count percpu_next = record {
  image_size = 0;
  previous_protection = none;
  percpu_next = percpu_next;
  module_percpu_offset = 0;
  module_percpu_size = 0;
  sections = replicate section_count no_place;
}

-- An error leaves out what the loop had changed.
module _ (page : ℕ) (section_at : ℕ → Result Section) where
  -- The loop, with the rounds that are left and the index.
  pub place_sections : ℕ → ℕ → Layout → Result Layout
  unfolding place_section
  place_sections zero i l = ok l
  place_sections (suc n) i l = do
    s ← section_at i
    l' ← place_section page i s l
    place_sections n (i + 1) l'

  pub layout_sections : ℕ → ℕ → Result Layout
  unfolding place_sections
  layout_sections section_count percpu_next =
      place_sections section_count 0 (start_layout section_count percpu_next)

-- The offset of the shim region and the size of the image.
pub image_extent : ℕ → Layout → Result (ℕ × ℕ)
image_extent page l = do
  guard (l.image_size /= 0 && leb l.image_size (u64_mod - 1)) invalid
  let shims = align_up64 l.image_size page
  ok (shims, add64 shims shim_region_size)
