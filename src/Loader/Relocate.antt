-- ===== src/Loader/Relocate.antt =====
-- The x86-64 relocations that src/loader/module_loader.c applies to a module's loaded sections:
-- calls of the kernel's thunks are patched (Patch), and the others get their operand stored.
-- 64-bit values are bit patterns below 2^64, also where the code has them signed; its signed sums
-- are taken to wrap. The address of the symbol is given: finding it is not modelled here.
pub mod Stored
pub mod Applied
pub mod Frame
mod Tests
use kobox.Prelude.{
  Bool, List, Option, Status, add64, get_elem?, if◌then◌else◌, invalid, leb, length, ltb, none, not,
  set, some, success, u32_mod, u64_mod, unsupported, ℕ, ◌%◌, ◌&&◌, ◌+◌, ◌-◌, ◌/=◌, ◌/◌, ◌==◌, ◌^◌,
  ◌||◌,
}
use kobox.Elf.Entries.{Relocation, Symbol}
use kobox.Loader.Resolve.{shn_undef}
pub use kobox.Loader.Patch.{r_pc32, r_plt32}
use kobox.Loader.Patch.{patch_local_external}

-- loaded_section_t; its `size` is the length of `bytes`.
pub record Loaded : Type 0 where
  pub base : ℕ
  pub bytes : List ℕ

-- KB_ELF_R_X86_64_*
abbrev pub r_none : ℕ
r_none = 0

abbrev pub r_64 : ℕ
r_64 = 1

abbrev pub r_32 : ℕ
r_32 = 10

abbrev pub r_32s : ℕ
r_32s = 11

abbrev pub r_pc64 : ℕ
r_pc64 = 24

pub write_u32le : List ℕ → ℕ → ℕ → List ℕ
write_u32le bytes p v =
    set
      (set (set (set bytes p (v % 2 ^ 8)) (p + 1) (v / 2 ^ 8 % 2 ^ 8)) (p + 2) (v / 2 ^ 16 % 2 ^ 8))
      (p + 3) (v / 2 ^ 24 % 2 ^ 8)

pub write_u64le : List ℕ → ℕ → ℕ → List ℕ
unfolding write_u32le
write_u64le bytes p v = write_u32le (write_u32le bytes p (v % u32_mod)) (p + 4) (v / u32_mod)

pub operand_fits : Loaded → ℕ → ℕ → Bool
operand_fits s offset width =
    s.base /= 0 && leb offset (length s.bytes) && leb width (length s.bytes - offset)

-- `0 <= v <= UINT32_MAX`
abbrev pub value_fits_u32 : ℕ → Bool
value_fits_u32 v = ltb v u32_mod

-- `INT32_MIN <= v <= INT32_MAX`
abbrev pub value_fits_i32 : ℕ → Bool
value_fits_i32 v = ltb v (2 ^ 31) || leb (u64_mod - 2 ^ 31) v

-- `a - b` in 64 bits, for `b` below 2^64
abbrev pub sub64 : ℕ → ℕ → ℕ
sub64 a b = (a + (u64_mod - b)) % u64_mod

abbrev pub value_of : Relocation → ℕ → ℕ
value_of r symbol = add64 symbol (if r.has_addend then r.addend else 0)

-- The address that the relocation writes to.
abbrev pub place_of : Loaded → Relocation → ℕ
place_of s r = add64 s.base r.offset

pub store64 : Loaded → ℕ → ℕ → Status × Loaded
unfolding write_u64le operand_fits
store64 s offset v =
    if operand_fits s offset 8
    then (success, record s { bytes = write_u64le s.bytes offset v })
    else (invalid, s)

pub store32 : Loaded → ℕ → Bool → ℕ → Status × Loaded
unfolding write_u32le operand_fits
store32 s offset fits v =
    if not (operand_fits s offset 4)
    then (invalid, s)
    else if fits
    then (success, record s { bytes = write_u32le s.bytes offset (v % u32_mod) })
    else (unsupported, s)

-- The switch over the relocation's type.
pub store_relocation : Loaded → Relocation → ℕ → Status × Loaded
unfolding store32 store64
store_relocation s r value =
    let diff = sub64 value (place_of s r) in
    if r.type == r_none
    then (success, s)
    else if r.type == r_64
    then store64 s r.offset value
    else if r.type == r_pc32 || r.type == r_plt32
    then store32 s r.offset (value_fits_i32 diff) diff
    else if r.type == r_pc64
    then store64 s r.offset diff
    else if r.type == r_32
    then store32 s r.offset (value_fits_u32 value) value
    else if r.type == r_32s
    then store32 s r.offset (value_fits_i32 value) value
    else (unsupported, s)

-- The section that the relocation writes to.
pub relocation_target : List Loaded → Relocation → Option Loaded
relocation_target sections r = elim (get_elem? sections r.target_section_index) [
  | none ↦ none
  | some s ↦ if s.base == 0 || leb (length s.bytes) r.offset then none else some s
]

-- The call of patch_local_x86_64_external, with the guards before it.
pub patch_section : Loaded → Relocation → Symbol → Option (List ℕ)
unfolding operand_fits patch_local_external
patch_section s r symbol =
    if symbol.section_index == shn_undef && ltb 0 r.offset && operand_fits s r.offset 4
    then patch_local_external symbol.name r.type s.bytes (r.offset - 1)
    else none

-- What apply_one_relocation does with a symbol that was read; `address` is what it finds for it,
-- after any interposition.
pub apply_relocation : List Loaded → Relocation → Symbol → ℕ → Status × List Loaded
unfolding relocation_target patch_section store_relocation
apply_relocation sections r symbol address = elim (relocation_target sections r) [
  | none ↦ (invalid, sections)
  | some s ↦ elim (patch_section s r symbol) [
    | some bytes ↦ (success, set sections r.target_section_index (record s { bytes = bytes }))
    | none ↦
        let (status, s') = store_relocation s r (value_of r address) in
        (status, set sections r.target_section_index s')
  ]
]
