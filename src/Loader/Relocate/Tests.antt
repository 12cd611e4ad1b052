-- ===== src/Loader/Relocate/Tests.antt =====
-- A section of eight bytes at 4096, and a PC-relative relocation of its last four bytes.
use kobox.Prelude.{
  [], refl, replicate, same_text, some, success, true, unsupported, ◌++◌, ◌^◌, ◌∷◌, ◌≡◌,
}
use kobox.Elf.Entries.{Relocation, Symbol}
use kobox.Loader.Patch.{return_thunk, thunk_prefix, find_register, indirect, patch_code}
use kobox.Loader.Relocate.{
  Loaded, write_u32le, operand_fits, store32, store_relocation, relocation_target, patch_section,
  apply_relocation,
}
use kobox.Loader.Relocate.Frame.{IsConfined, ChangesAt, apply_relocation-IsConfined}

abbrev section : Loaded
section = record { base = 4096; bytes = replicate 8 0 }

abbrev call : Relocation
call = record {
  offset = 4;
  type = 2;
  symbol_index = 1;
  addend = 18446744073709551612;
  has_addend = true;
  target_section_index = 0;
  symbol_table_section_index = 3;
}

abbrev patched : Loaded
patched = record { base = 4096; bytes = 0 ∷ 0 ∷ 0 ∷ 0 ∷ 248 ∷ 239 ∷ 255 ∷ 255 ∷ [] }

abbrev data_symbol : Symbol
data_symbol = record {
  name = [];
  binding = 0;
  type = 0;
  visibility = 0;
  section_index = 1;
  value = 0;
  size = 0;
}

abbrev return_symbol : Symbol
return_symbol = record data_symbol { name = return_thunk; section_index = 0 }

-- The symbol is at 0, so the operand is -4104 in 32 bits.
patches : apply_relocation (section ∷ []) call data_symbol 0 ≡ (success, patched ∷ [])
unfolding apply_relocation relocation_target patch_section store_relocation store32 operand_fits
    write_u32le
patches = refl

-- A jump to the return thunk is a return.
abbrev returning : Loaded
returning = record { base = 4096; bytes = 0 ∷ 0 ∷ 0 ∷ 195 ∷ 144 ∷ 144 ∷ 144 ∷ 144 ∷ [] }

-- A call of a register's thunk, in its last two forms.
calls_r9 :
    patch_code (thunk_prefix ++ b'r' ∷ b'9' ∷ []) 4 232 ≡ some (65 ∷ 255 ∷ 209 ∷ 144 ∷ 144 ∷ [])
unfolding patch_code find_register indirect same_text
calls_r9 = refl

jumps_rcx :
    patch_code (thunk_prefix ++ b'r' ∷ b'c' ∷ b'x' ∷ []) 4 233
    ≡ some (255 ∷ 225 ∷ 144 ∷ 144 ∷ 144 ∷ [])
unfolding patch_code find_register indirect same_text
jumps_rcx = refl

apply_relocation-IsConfined_example :
    ChangesAt 0
      (λ s s'. IsConfined s call return_symbol s')
      (section ∷ [])
      (apply_relocation (section ∷ []) call return_symbol 100).1
apply_relocation-IsConfined_example =
    apply_relocation-IsConfined (section ∷ []) call return_symbol 100

-- 2^40 is too far away.
too_far : (store_relocation section call (2 ^ 40)).0 ≡ unsupported
unfolding store_relocation store32 operand_fits
too_far = refl
