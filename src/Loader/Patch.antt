-- ===== src/Loader/Patch.antt =====
-- patch_local_x86_64_external of src/loader/module_loader.c: calls and jumps of a module to the
-- kernel's return and indirect-branch thunks, and to __fentry__, become instructions in place. The
-- code writes from `target[-1]` to `target[3]`; here these are the five bytes from `at` on. The
-- comparisons at the function's end repeat names that the table has, with the same opcodes, so
-- they match nothing that is left.
pub mod Encoded
use kobox.Prelude.{
  List, Option, [], get_or, if◌then◌else◌, ltb, none, not, replicate, same_text, some, ℕ, ◌++◌, ◌+◌,
  ◌-◌, ◌==◌, ◌||◌, ◌∷◌,
}
use kobox.Loader.Copy.{overwrite}

-- KB_ELF_R_X86_64_PC32 and KB_ELF_R_X86_64_PLT32
abbrev pub r_pc32 : ℕ
r_pc32 = 2

abbrev pub r_plt32 : ℕ
r_plt32 = 4

-- "__x86_return_thunk"
abbrev pub return_thunk : List ℕ
return_thunk =
    b'_' ∷ b'_' ∷ b'x' ∷ b'8' ∷ b'6' ∷ b'_' ∷ b'r' ∷ b'e' ∷ b't' ∷ b'u' ∷ b'r' ∷ b'n' ∷ b'_' ∷ b't'
    ∷ b'h' ∷ b'u' ∷ b'n' ∷ b'k' ∷ []

-- "__fentry__"
abbrev pub fentry : List ℕ
fentry = b'_' ∷ b'_' ∷ b'f' ∷ b'e' ∷ b'n' ∷ b't' ∷ b'r' ∷ b'y' ∷ b'_' ∷ b'_' ∷ []

-- "__x86_indirect_thunk_"
abbrev pub thunk_prefix : List ℕ
thunk_prefix =
    b'_' ∷ b'_' ∷ b'x' ∷ b'8' ∷ b'6' ∷ b'_' ∷ b'i' ∷ b'n' ∷ b'd' ∷ b'i' ∷ b'r' ∷ b'e' ∷ b'c' ∷ b't'
    ∷ b'_' ∷ b't' ∷ b'h' ∷ b'u' ∷ b'n' ∷ b'k' ∷ b'_' ∷ []

-- The registers whose thunks the code compares with, in its order, and their numbers.
abbrev pub thunk_registers : List (List ℕ × ℕ)
thunk_registers =
    (b'r' ∷ b'a' ∷ b'x' ∷ [], 0)
    ∷ (b'r' ∷ b'c' ∷ b'x' ∷ [], 1)
    ∷ (b'r' ∷ b'd' ∷ b'x' ∷ [], 2)
    ∷ (b'r' ∷ b'b' ∷ b'x' ∷ [], 3)
    ∷ (b'r' ∷ b'b' ∷ b'p' ∷ [], 5)
    ∷ (b'r' ∷ b's' ∷ b'i' ∷ [], 6)
    ∷ (b'r' ∷ b'8' ∷ [], 8)
    ∷ (b'r' ∷ b'9' ∷ [], 9)
    ∷ (b'r' ∷ b'1' ∷ b'0' ∷ [], 10)
    ∷ (b'r' ∷ b'1' ∷ b'1' ∷ [], 11)
    ∷ (b'r' ∷ b'1' ∷ b'2' ∷ [], 12)
    ∷ (b'r' ∷ b'1' ∷ b'3' ∷ [], 13)
    ∷ (b'r' ∷ b'1' ∷ b'4' ∷ [], 14)
    ∷ (b'r' ∷ b'1' ∷ b'5' ∷ [], 15)
    ∷ []

-- The number of the first register whose thunk has the name; `none` is -1.
unfoldable pub find_register : List (List ℕ × ℕ) → List ℕ → Option ℕ
find_register [] name = none
find_register ((register, r) ∷ rs) name =
    if same_text name (thunk_prefix ++ register) then some r else find_register rs name

abbrev pub nops : ℕ → List ℕ
nops n = replicate n 0x90

-- Opcodes of a call and of a jump with a 32-bit operand
abbrev pub op_call : ℕ
op_call = 0xe8

abbrev pub op_jump : ℕ
op_jump = 0xe9

unfoldable pub indirect : ℕ → ℕ → List ℕ
indirect before r =
    let modrm_base = if before == op_call then 0xd0 else 0xe0 in
    if ltb r 8
    then 0xff ∷ (modrm_base + r) ∷ nops 3
    else 0x41 ∷ 0xff ∷ (modrm_base + (r - 8)) ∷ nops 2

-- The five bytes that are written; `before` is `target[-1]`.
unfoldable pub patch_code : List ℕ → ℕ → ℕ → Option (List ℕ)
unfolding find_register indirect
patch_code name type before =
    if not (type == r_pc32 || type == r_plt32)
    then none
    else if same_text name return_thunk
    then some (0xc3 ∷ nops 4)
    else if same_text name fentry
    then some (nops 5)
    else elim (find_register thunk_registers name) [
      | none ↦ none
      | some r ↦ if before == op_call || before == op_jump then some (indirect before r) else none
    ]

unfoldable pub patch_local_external : List ℕ → ℕ → List ℕ → ℕ → Option (List ℕ)
unfolding patch_code
patch_local_external name type bytes at = elim (patch_code name type (get_or bytes at 0)) [
  | none ↦ none
  | some code ↦ some (overwrite bytes at code)
]
