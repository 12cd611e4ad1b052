-- ===== src/Loader/Relocate/Frame.antt =====
-- What a relocation of src/loader/module_loader.c leaves as it is.
use kobox.Prelude.{
  Bool, Bool-cases, List, Option-cases, arith, false, get_elem?, get_elem?-set_ne,
  get_elem?-set_self, get_elem?-some_lt, get_or, get_or-get_elem?, if◌then◌else◌, inl, inr, length,
  length-set, refl, set, some, success, true, u32_mod, ℕ, ◌%◌, ◌+◌, ◌-◌, ◌<◌, ◌==◌, ◌||◌, ◌∙◌, ◌≡◌,
  ◌≢◌, ◌≤◌, ◌⊎◌,
}
use mathlib.Core.Path.{subst}
use kobox.Elf.Entries.{Relocation, Symbol}
use kobox.Loader.Relocate.{
  Loaded, operand_fits, value_fits_u32, value_fits_i32, sub64, place_of, store32, store64,
  store_relocation, value_of, relocation_target, patch_section, apply_relocation, r_none, r_64,
  r_pc32, r_plt32, r_32, r_32s, r_pc64,
}
use kobox.Loader.Relocate.Stored.{
  length-write_u32le, length-write_u64le, get_or-write_u32le-outside, get_or-write_u64le-outside,
}
use kobox.Loader.Relocate.Applied.{IsLocalCall, patch_section-some, fits_five, target_loaded}

-- The bytes of the operand.
abbrev pub width_of : ℕ → ℕ
width_of type = if type == r_64 || type == r_pc64 then 8 else 4

-- The sections differ in `width` bytes at most, and these lie inside.
abbrev pub IsLocal : Loaded → ℕ → ℕ → Loaded → Type 0
IsLocal s offset width s' =
    (s' ≡ s)
    ⊎ ((s'.base ≡ s.base)
        × (length s'.bytes ≡ length s.bytes)
        × (offset + width ≤ length s.bytes)
        × ((j : ℕ)
            → (j < offset) ⊎ (offset + width ≤ j)
            → get_or s'.bytes j 0 ≡ get_or s.bytes j 0))

store64-IsLocal : (s : Loaded) (offset v : ℕ) → IsLocal s offset 8 (store64 s offset v).1
unfolding store64 operand_fits
store64-IsLocal s offset v = elim (Bool-cases (operand_fits s offset 8)) [
  | inl fits ↦ rw fits (
      inr (
        refl,
        length-write_u64le s.bytes offset v,
        ground arith,
        λ j h. get_or-write_u64le-outside s.bytes offset v j h,
      ))
  | inr out ↦ rw out (inl refl)
]

store32-IsLocal :
    (s : Loaded) (offset : ℕ) (fits : Bool) (v : ℕ) → IsLocal s offset 4 (store32 s offset fits v).1
unfolding store32 operand_fits
store32-IsLocal s offset fits v = elim (Bool-cases (operand_fits s offset 4)) [
  | inr out ↦ rw out (inl refl)
  | inl inside ↦ elim (Bool-cases fits) [
    | inr no_fit ↦ rw (inside, no_fit) (inl refl)
    | inl fit ↦
        rw (inside, fit)
          (inr (
            refl,
            length-write_u32le s.bytes offset (v % u32_mod),
            ground arith,
            λ j h. get_or-write_u32le-outside s.bytes offset (v % u32_mod) j h,
          ))
  ]
]

wide : (t : ℕ) → (t == r_64) ≡ true → width_of t ≡ 8
wide t e = ground arith

wide_pc : (t : ℕ) → (t == r_pc64) ≡ true → width_of t ≡ 8
wide_pc t e = ground arith

narrow : (t : ℕ) → (t == r_64) ≡ false → (t == r_pc64) ≡ false → width_of t ≡ 4
narrow t e e' = ground arith

narrow_pc : (t : ℕ) → (t == r_pc32 || t == r_plt32) ≡ true → width_of t ≡ 4
narrow_pc t e = ground arith

local :
    (s : Loaded) (r : Relocation) (value width : ℕ)
    → width ≡ width_of r.type
    → IsLocal s r.offset width (store_relocation s r value).1
unfolding store_relocation
local s r value width w =
    let diff = sub64 value (place_of s r) in
    elim (Bool-cases (r.type == r_none)) [
      | inl e ↦ rw (store_relocation, e) (inl refl)
      | inr n₀ ↦ elim (Bool-cases (r.type == r_64)) [
        | inl e ↦ rw (store_relocation, n₀, e, w ∙ wide r.type e) (store64-IsLocal s r.offset value)
        | inr n₁ ↦ elim (Bool-cases (r.type == r_pc32 || r.type == r_plt32)) [
          | inl e ↦
              rw (store_relocation, n₀, n₁, e, w ∙ narrow_pc r.type e)
                (store32-IsLocal s r.offset (value_fits_i32 diff) diff)
          | inr n₂ ↦ elim (Bool-cases (r.type == r_pc64)) [
            | inl e ↦
                rw (store_relocation, n₀, n₁, n₂, e, w ∙ wide_pc r.type e)
                  (store64-IsLocal s r.offset diff)
            | inr n₃ ↦ elim (Bool-cases (r.type == r_32)) [
              | inl e ↦
                  rw (store_relocation, n₀, n₁, n₂, n₃, e, w ∙ narrow r.type n₁ n₃)
                    (store32-IsLocal s r.offset (value_fits_u32 value) value)
              | inr n₄ ↦ elim (Bool-cases (r.type == r_32s)) [
                | inl e ↦
                    rw (store_relocation, n₀, n₁, n₂, n₃, n₄, e, w ∙ narrow r.type n₁ n₃)
                      (store32-IsLocal s r.offset (value_fits_i32 value) value)
                | inr n₅ ↦ rw (store_relocation, n₀, n₁, n₂, n₃, n₄, n₅) (inl refl)
              ]
            ]
          ]
        ]
      ]
    ]

store_relocation-IsLocal :
    (s : Loaded) (r : Relocation) (value : ℕ)
    → IsLocal s r.offset (width_of r.type) (store_relocation s r value).1
store_relocation-IsLocal s r value = local s r value (width_of r.type) refl

-- The operand's bytes, or for a call or jump to an undefined symbol those and the byte before.
abbrev pub IsConfined : Loaded → Relocation → Symbol → Loaded → Type 0
IsConfined s r symbol s' =
    IsLocal s r.offset (width_of r.type) s' ⊎ (IsLocalCall symbol r × IsLocal s (r.offset - 1) 5 s')

patch_section-IsLocal :
    (s : Loaded) (r : Relocation) (symbol : Symbol) {bytes' : List ℕ}
    → patch_section s r symbol ≡ some bytes'
    → IsLocalCall symbol r × IsLocal s (r.offset - 1) 5 (record s { bytes = bytes' })
patch_section-IsLocal s r symbol {bytes'} h =
    let (call, fits, i, replaces, patched) = patch_section-some s r symbol h in
    (
      call,
      inr (
        refl,
        patched.size,
        fits_five s r.offset fits call.1,
        λ j out. get_or-get_elem? bytes' s.bytes j 0 (patched.outside j out),
      ),
    )

-- Only the section at `i` is changed, and that as `P` says.
abbrev pub ChangesAt : ℕ → (Loaded → Loaded → Type 0) → List Loaded → List Loaded → Type 0
ChangesAt i P sections sections' =
    (length sections' ≡ length sections)
    × ((j : ℕ) → i ≢ j → get_elem? sections' j ≡ get_elem? sections j)
    × ((s : Loaded)
        → get_elem? sections i ≡ some s
        → (s' : Loaded) × (get_elem? sections' i ≡ some s') × P s s')

ChangesAt-set :
    (i : ℕ) (P : Loaded → Loaded → Type 0) (sections : List Loaded) (s s' : Loaded)
    → get_elem? sections i ≡ some s
    → P s s'
    → ChangesAt i P sections (set sections i s')
ChangesAt-set i P sections s s' at p = (
  length-set sections i s',
  λ j apart. get_elem?-set_ne sections s' apart,
  λ t at'.
      let same : s ≡ t = cc in
      (
        s',
        get_elem?-set_self sections i s' (get_elem?-some_lt sections i at),
        subst (λ x. P x s') same p,
      ),
)

-- Whatever its status is, a relocation leaves every section as it is but the one that it targets,
-- and there changes nothing, or only the 8 or 4 bytes of the operand, which lie inside the section;
-- for a call or jump to an undefined symbol it may be these and the opcode before them.
pub apply_relocation-IsConfined :
    (sections : List Loaded) (r : Relocation) (symbol : Symbol) (address : ℕ)
    → ChangesAt r.target_section_index
        (λ s s'. IsConfined s r symbol s')
        sections
        (apply_relocation sections r symbol address).1
unfolding apply_relocation
apply_relocation-IsConfined sections r symbol address =
    let P : Loaded → Loaded → Type 0 = λ s s'. IsConfined s r symbol s' in
    elim (Option-cases (relocation_target sections r)) [
      | inl e ↦
          rw (apply_relocation, e) (refl, (λ j apart. refl), (λ s at. (s, at, inl (inl refl))))
      | inr (s, e) ↦ elim (Option-cases (patch_section s r symbol)) [
        | inr (bytes, p) ↦
            rw (apply_relocation, e, p)
              (ChangesAt-set r.target_section_index P sections s (record s { bytes = bytes })
                (target_loaded sections r e) (inr (patch_section-IsLocal s r symbol p)))
        | inl p ↦
            rw (apply_relocation, e, p)
              (ChangesAt-set r.target_section_index P sections s
                (store_relocation s r (value_of r address)).1 (target_loaded sections r e)
                (inl (store_relocation-IsLocal s r (value_of r address))))
      ]
    ]

-- A relocation that is refused leaves its section as it is.
store_relocation_refused :
    (s : Loaded) (r : Relocation) (value : ℕ)
    → (store_relocation s r value).0 ≢ success
    → (store_relocation s r value).1 ≡ s
unfolding store_relocation store32 store64
store_relocation_refused s r value h = ground arith
