-- ===== src/Loader/Relocate/Applied.antt =====
-- A relocation of src/loader/module_loader.c against the processor's rule for it.
use kobox.Prelude.{
  Bool-cases, List, arith, get_elem?, get_or, if◌then◌else◌, inl, inr, length, ltb, none, some,
  true, u32_mod, u64_mod, ℕ, ◌&&◌, ◌+◌, ◌-◌, ◌<◌, ◌==◌, ◌^◌, ◌≡◌, ◌≤◌, ◌⊎◌,
}
use kobox.Elf.Bytes.{u32_at, u64_at}
use kobox.Elf.Entries.{Relocation, Symbol}
use kobox.Loader.Resolve.{shn_undef}
use kobox.Loader.Patch.Encoded.{
  Instruction, Replaces, IsKept, IsPatched, IsPcRelative, patch_local_external-some,
}
use kobox.Loader.Relocate.{
  Loaded, operand_fits, sub64, place_of, relocation_target, patch_section, r_none, r_64, r_pc32,
  r_plt32, r_32, r_32s, r_pc64,
}

-- What the processor makes of a stored 32-bit operand where it extends the sign.
abbrev pub sign_extend : ℕ → ℕ
sign_extend x = if ltb x (2 ^ 31) then x else x + (u64_mod - u32_mod)

-- The x86-64 ABI's table: S + A or S + A - P, at the operand's width. `value` is S + A.
abbrev pub IsStored : Loaded → Relocation → ℕ → Loaded → Type 0
IsStored s r value s' =
    ((r.type ≡ r_none) × (s' ≡ s))
    ⊎ ((r.type ≡ r_64) × (u64_at s'.bytes r.offset ≡ value))
    ⊎ (((r.type ≡ r_pc32) ⊎ (r.type ≡ r_plt32))
        × (sign_extend (u32_at s'.bytes r.offset) ≡ sub64 value (place_of s r)))
    ⊎ ((r.type ≡ r_pc64) × (u64_at s'.bytes r.offset ≡ sub64 value (place_of s r)))
    ⊎ ((r.type ≡ r_32) × (u32_at s'.bytes r.offset ≡ value))
    ⊎ ((r.type ≡ r_32s) × (sign_extend (u32_at s'.bytes r.offset) ≡ value))

pub target_loaded :
    (sections : List Loaded) (r : Relocation) {s : Loaded}
    → relocation_target sections r ≡ some s
    → get_elem? sections r.target_section_index ≡ some s
unfolding relocation_target
target_loaded sections r h = ground arith

-- The symbol is of another module or the kernel, and the operand is that of a call or jump.
abbrev pub IsLocalCall : Symbol → Relocation → Type 0
IsLocalCall symbol r = (symbol.section_index ≡ shn_undef) × (0 < r.offset) × IsPcRelative r.type

abbrev pub IsApplied : Loaded → Relocation → Symbol → ℕ → Loaded → Type 0
IsApplied s r symbol value s' =
    (IsLocalCall symbol r
      × (s'.base ≡ s.base)
      × (i : Instruction) × Replaces symbol.name (get_or s.bytes (r.offset - 1) 0) i
      × IsPatched (r.offset - 1) s.bytes s'.bytes i)
    ⊎ ((IsLocalCall symbol r → IsKept symbol.name (get_or s.bytes (r.offset - 1) 0))
        × IsStored s r value s')

pub fits_five :
    (s : Loaded) (offset : ℕ)
    → operand_fits s offset 4 ≡ true
    → 0 < offset
    → offset - 1 + 5 ≤ length s.bytes
unfolding operand_fits
fits_five s offset h more = ground arith

pub patch_section-some :
    (s : Loaded) (r : Relocation) (symbol : Symbol) {bytes' : List ℕ}
    → patch_section s r symbol ≡ some bytes'
    → IsLocalCall symbol r
      × (operand_fits s r.offset 4 ≡ true)
      × (i : Instruction) × Replaces symbol.name (get_or s.bytes (r.offset - 1) 0) i
      × IsPatched (r.offset - 1) s.bytes bytes' i
unfolding patch_section
patch_section-some s r symbol {bytes'} h =
    elim (Bool-cases
      (symbol.section_index == shn_undef && ltb 0 r.offset && operand_fits s r.offset 4)) [
        | inr e ↦ let g : none ≡ some bytes' = rw (patch_section, e) at h in absurd (cc)
        | inl e ↦
            let fits : operand_fits s r.offset 4 ≡ true = ground arith in
            let (relative, i, replaces, patched) =
              patch_local_external-some symbol.name r.type s.bytes (r.offset - 1)
                (fits_five s r.offset fits (ground arith)) (rw (patch_section, e) at h) in
            ((ground arith, ground arith, relative), fits, i, replaces, patched)
      ]
