-- ===== src/Loader/Patch/Encoded.antt =====
-- The instructions that src/loader/module_loader.c writes in place of calls and jumps to thunks.
use kobox.Prelude.{
  All, Bool-cases, List, Option, Option-cases, [], ap, arith, false, get_elem?, get_or,
  if◌then◌else◌, inl, inr, length, ltb, none, refl, same_text, same_text_eq, same_text_refl, some,
  true, ℕ, ◌%◌, ◌*◌, ◌++◌, ◌+◌, ◌<◌, ◌==◌, ◌||◌, ◌∷◌, ◌≡◌, ◌≢◌, ◌≤◌, ◌⊎◌,
}
use kobox.Loader.Copy.{overwrite}
use kobox.Loader.Copy.Bytes.{length-overwrite, get_elem?-overwrite, get_elem?-overwrite_out}
use kobox.Loader.Patch.{
  r_pc32, r_plt32, return_thunk, fentry, thunk_prefix, thunk_registers, find_register, nops,
  op_call, op_jump, indirect, patch_code, patch_local_external,
}

-- The names of the registers by the processor's numbers.
abbrev register_names : List (List ℕ)
register_names =
    (b'r' ∷ b'a' ∷ b'x' ∷ [])
    ∷ (b'r' ∷ b'c' ∷ b'x' ∷ [])
    ∷ (b'r' ∷ b'd' ∷ b'x' ∷ [])
    ∷ (b'r' ∷ b'b' ∷ b'x' ∷ [])
    ∷ (b'r' ∷ b's' ∷ b'p' ∷ [])
    ∷ (b'r' ∷ b'b' ∷ b'p' ∷ [])
    ∷ (b'r' ∷ b's' ∷ b'i' ∷ [])
    ∷ (b'r' ∷ b'd' ∷ b'i' ∷ [])
    ∷ (b'r' ∷ b'8' ∷ [])
    ∷ (b'r' ∷ b'9' ∷ [])
    ∷ (b'r' ∷ b'1' ∷ b'0' ∷ [])
    ∷ (b'r' ∷ b'1' ∷ b'1' ∷ [])
    ∷ (b'r' ∷ b'1' ∷ b'2' ∷ [])
    ∷ (b'r' ∷ b'1' ∷ b'3' ∷ [])
    ∷ (b'r' ∷ b'1' ∷ b'4' ∷ [])
    ∷ (b'r' ∷ b'1' ∷ b'5' ∷ [])
    ∷ []

pub data Instruction : Type 0 where
  ret nothing : Instruction
  call_register jump_register : ℕ → Instruction

-- REX.B for the upper registers, the opcode FF, and a ModRM byte with mode 3 and the opcode's /2
-- or /4.
abbrev with_modrm : ℕ → ℕ → List ℕ
with_modrm digit r = (if ltb r 8 then [] else 0x41 ∷ []) ++ 0xff ∷ (3 * 64 + digit * 8 + r % 8) ∷ []

abbrev pub encode : Instruction → List ℕ
encode ret = 0xc3 ∷ []
encode nothing = []
encode (call_register r) = with_modrm 2 r
encode (jump_register r) = with_modrm 4 r

-- The instruction for a call or jump, whose opcode is `before`, to the symbol.
abbrev pub Replaces : List ℕ → ℕ → Instruction → Type 0
Replaces name before ret = name ≡ return_thunk
Replaces name before nothing = name ≡ fentry
Replaces name before (call_register r) =
    (register : List ℕ) × (get_elem? register_names r ≡ some register)
    × (name ≡ thunk_prefix ++ register)
    × (before ≡ op_call)
Replaces name before (jump_register r) =
    (register : List ℕ) × (get_elem? register_names r ≡ some register)
    × (name ≡ thunk_prefix ++ register)
    × (before ≡ op_jump)

-- Nothing replaces it.
abbrev pub IsKept : List ℕ → ℕ → Type 0
IsKept name before =
    (name ≢ return_thunk)
    × (name ≢ fentry)
    × ((All (λ e. name ≢ thunk_prefix ++ e.0) thunk_registers)
        ⊎ ((before ≢ op_call) × (before ≢ op_jump)))

-- The five bytes from `at` on are the instruction, and NOPs behind it; the others are as before.
pub record IsPatched (at : ℕ) (bytes bytes' : List ℕ) (i : Instruction) : Type 0 where
  pub padding : ℕ
  pub size : length bytes' ≡ length bytes
  pub five : length (encode i ++ nops padding) ≡ 5
  pub code : (k : ℕ) → k < 5 → get_elem? bytes' (at + k) ≡ get_elem? (encode i ++ nops padding) k
  pub outside : (k : ℕ) → (k < at) ⊎ (at + 5 ≤ k) → get_elem? bytes' k ≡ get_elem? bytes k

-- The numbers of the table are those of the processor, and below 16.
AreNumbered : List (List ℕ × ℕ) → Type 0
AreNumbered = All λ e. (get_elem? register_names e.1 ≡ some e.0) × (e.1 < 16)

numbered : AreNumbered thunk_registers
unfolding AreNumbered
numbered = ground arith

find_register-some :
    (rs : List (List ℕ × ℕ)) (name : List ℕ) {r : ℕ}
    → AreNumbered rs
    → find_register rs name ≡ some r
    → (register : List ℕ) × (get_elem? register_names r ≡ some register)
      × (name ≡ thunk_prefix ++ register)
      × (r < 16)
unfolding find_register AreNumbered
find_register-some [] name n h = absurd (cc)
find_register-some ((register, q) ∷ rs) name {r} n h =
    elim (Bool-cases (same_text name (thunk_prefix ++ register))) [
      | inl e ↦
          let found : some q ≡ some r = rw (find_register, e) at h in
          let same : q ≡ r = ground arith in
          (register, rw (← same) n.0.0, same_text_eq name _ e, omega (arith, n.0.1, same))
      | inr e ↦ find_register-some rs name n.1 (rw (find_register, e) at h)
    ]

find_register-none :
    (rs : List (List ℕ × ℕ)) (name : List ℕ)
    → find_register rs name ≡ none
    → All (λ e. name ≢ thunk_prefix ++ e.0) rs
unfolding find_register
find_register-none [] name h = tt
find_register-none ((register, q) ∷ rs) name h =
    elim (Bool-cases (same_text name (thunk_prefix ++ register))) [
      | inl e ↦ let found : some q ≡ none = rw (find_register, e) at h in absurd (cc)
      | inr e ↦ (
        (λ same.
            let same' : same_text name (thunk_prefix ++ register) ≡ true =
              rw (← same) (same_text_refl name) in
            absurd (cc)),
        find_register-none rs name (rw (find_register, e) at h),
      )
    ]

indirect-call :
    (r : ℕ)
    → r < 16
    → (padding : ℕ) × (indirect op_call r ≡ encode (call_register r) ++ nops padding)
      × (length (indirect op_call r) ≡ 5)
unfolding indirect
indirect-call r small = elim (Bool-cases (ltb r 8)) [
  | inl e ↦ rw e (3, ap (λ m. 0xff ∷ m ∷ nops 3) (ground arith), refl)
  | inr e ↦ rw e (2, ap (λ m. 0x41 ∷ 0xff ∷ m ∷ nops 2) (ground arith), refl)
]

indirect-jump :
    (r : ℕ)
    → r < 16
    → (padding : ℕ) × (indirect op_jump r ≡ encode (jump_register r) ++ nops padding)
      × (length (indirect op_jump r) ≡ 5)
unfolding indirect
indirect-jump r small = elim (Bool-cases (ltb r 8)) [
  | inl e ↦ rw e (3, ap (λ m. 0xff ∷ m ∷ nops 3) (ground arith), refl)
  | inr e ↦ rw e (2, ap (λ m. 0x41 ∷ 0xff ∷ m ∷ nops 2) (ground arith), refl)
]

abbrev pub IsPcRelative : ℕ → Type 0
IsPcRelative type = (type ≡ r_pc32) ⊎ (type ≡ r_plt32)

abbrev IsCode : List ℕ → ℕ → List ℕ → Type 0
IsCode name before code =
    (i : Instruction) × (padding : ℕ) × Replaces name before i
    × (code ≡ encode i ++ nops padding)
    × (length code ≡ 5)

indirect-IsCode :
    (name : List ℕ) (before r : ℕ) (register : List ℕ)
    → get_elem? register_names r ≡ some register
    → name ≡ thunk_prefix ++ register
    → r < 16
    → (before == op_call || before == op_jump) ≡ true
    → IsCode name before (indirect before r)
indirect-IsCode name before r register at named small h = elim (Bool-cases (before == op_call)) [
  | inl e ↦
      let is_call : before ≡ op_call = ground arith in
      let (padding, same, five) = indirect-call r small in
      (call_register r, padding, (register, at, named, is_call), rw is_call same, rw is_call five)
  | inr e ↦
      let is_jump : before ≡ op_jump = ground arith in
      let (padding, same, five) = indirect-jump r small in
      (jump_register r, padding, (register, at, named, is_jump), rw is_jump same, rw is_jump five)
]

-- The answers of `patch_code`, by its tests.
Answers : List ℕ → ℕ → ℕ → Option (List ℕ) → Type 0
Answers name type before none = IsPcRelative type → IsKept name before
Answers name type before (some code) = IsPcRelative type × IsCode name before code

patch_code-Answers :
    (name : List ℕ) (type before : ℕ) → Answers name type before (patch_code name type before)
unfolding patch_code Answers
patch_code-Answers name type before = elim (Bool-cases (type == r_pc32 || type == r_plt32)) [
  | inr t ↦ rw (patch_code, t) (λ h. absurd (ground arith))
  | inl t ↦
      let relative : IsPcRelative type = ground arith in
      elim (Bool-cases (same_text name return_thunk)) [
        | inl e ↦
            rw (patch_code, t, e) (relative, (ret, 4, same_text_eq name return_thunk e, refl, refl))
        | inr n₁ ↦ elim (Bool-cases (same_text name fentry)) [
          | inl e ↦
              rw (patch_code, t, n₁, e)
                (relative, (nothing, 5, same_text_eq name fentry e, refl, refl))
          | inr n₂ ↦ elim (Option-cases (find_register thunk_registers name)) [
            | inl f ↦
                rw (patch_code, t, n₁, n₂, f)
                  (λ _. (
                    differs name return_thunk n₁,
                    differs name fentry n₂,
                    inl (find_register-none thunk_registers name f),
                  ))
            | inr (r, f) ↦
                let (register, at, named, small) =
                  find_register-some thunk_registers name numbered f in
                elim (Bool-cases (before == op_call || before == op_jump)) [
                  | inl b ↦
                      rw (patch_code, t, n₁, n₂, f, b)
                        (relative, indirect-IsCode name before r register at named small b)
                  | inr b ↦
                      rw (patch_code, t, n₁, n₂, f, b)
                        (λ _. (
                          differs name return_thunk n₁,
                          differs name fentry n₂,
                          inr (ground arith, ground arith),
                        ))
                ]
          ]
        ]
      ]
]
  where
    differs : (a b : List ℕ) → same_text a b ≡ false → a ≢ b
    differs a b n e = let same : same_text a b ≡ true = rw (← e) (same_text_refl a) in absurd (cc)

pub patch_local_external-some :
    (name : List ℕ) (type : ℕ) (bytes : List ℕ) (at : ℕ) {bytes' : List ℕ}
    → at + 5 ≤ length bytes
    → patch_local_external name type bytes at ≡ some bytes'
    → IsPcRelative type
      × (i : Instruction) × Replaces name (get_or bytes at 0) i
      × IsPatched at bytes bytes' i
unfolding patch_local_external Answers
patch_local_external-some name type bytes at {bytes'} room h =
    elim (Option-cases (patch_code name type (get_or bytes at 0))) [
      | inl e ↦ let g : none ≡ some bytes' = rw (patch_local_external, e) at h in absurd (cc)
      | inr (code, e) ↦
          let g : some (overwrite bytes at code) ≡ some bytes' =
            rw (patch_local_external, e) at h in
          let same : overwrite bytes at code ≡ bytes' = cc in
          let (relative, (i, padding, replaces, is_code, five)) =
            rw e at (patch_code-Answers name type (get_or bytes at 0)) in
          (
            relative,
            i,
            replaces,
            rw (← same) (record {
              padding = padding;
              size = length-overwrite code bytes at;
              five = rw (← is_code) five;
              code = λ k lt.
                  rw (← is_code) (get_elem?-overwrite code bytes at k (omega arith) (omega arith));
              outside = λ k out. get_elem?-overwrite_out code bytes at k (omega (arith, five, out));
            }),
          )
    ]

pub patch_local_external-none :
    (name : List ℕ) (type : ℕ) (bytes : List ℕ) (at : ℕ)
    → patch_local_external name type bytes at ≡ none
    → IsPcRelative type
    → IsKept name (get_or bytes at 0)
unfolding patch_local_external Answers
patch_local_external-none name type bytes at h =
    elim (Option-cases (patch_code name type (get_or bytes at 0))) [
      | inl e ↦ rw e at (patch_code-Answers name type (get_or bytes at 0))
      | inr (code, e) ↦
          let g : some (overwrite bytes at code) ≡ none = rw (patch_local_external, e) at h in
          absurd (cc)
    ]
