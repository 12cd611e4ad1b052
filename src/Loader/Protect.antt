-- ===== src/Loader/Protect.antt =====
-- finalize_section_protections of src/loader/module_loader.c: the calls of mprotect that give each
-- section of a loaded module its access. Runs of sections of one protection share a call. `grant`
-- says which calls the system grants. The calls are kept with the last one first, and an error
-- leaves them out.
pub mod Access
pub mod Runs
pub mod Stands
pub mod Sealed
pub mod Loaded
mod Tests
use Prim.Native.Nat.{bit_and}
use kobox.Prelude.{
  Bool, List, Option, [], add64, if◌then◌else◌, leb, ltb, none, some, u64_mod, unsupported, ℕ, ◌&&◌,
  ◌*◌, ◌+◌, ◌-◌, ◌==◌, ◌||◌, ◌∷◌,
}
use kobox.Elf.Bytes.{Result, ok, err, ◌>>=◌, ◌>>◌}
use kobox.Loader.Layout.{Place, align_up64, section_protection, shim_region_size}

pub record Call : Type 0 where
  pub start : ℕ
  pub size : ℕ
  pub access : ℕ

-- PROT_READ, PROT_WRITE and PROT_EXEC are the bits 1, 2 and 4.
pub native_protection : ℕ → ℕ
native_protection protection = if protection == 2 then 5 else if protection == 1 then 3 else 1

-- `run_protection`, `run_start` and `run_end`, once they are set
pub record Run : Type 0 where
  pub start : ℕ
  pub end : ℕ
  pub protection : ℕ

-- KB_LOCAL_SHIM_DATA_OFFSET
abbrev pub shim_data_offset : ℕ
shim_data_offset = 48 * 4096

-- KB_LOCAL_SHIM_DATA_SIZE
abbrev pub shim_data_size : ℕ
shim_data_size = 32768

-- `offset & ~(page - 1)`
pub page_floor : ℕ → ℕ → ℕ
page_floor offset page = bit_and offset (u64_mod - 1 - (page - 1))

module _ (grant : Call → Bool) where
  pub mprotect : ℕ → ℕ → ℕ → List Call → Result (List Call)
  mprotect start size access calls =
      let call : Call = record { start = start; size = size; access = access } in
      if grant call then ok (call ∷ calls) else err unsupported

  module _ (page base : ℕ) where
    pub protect_section_run : Run → List Call → Result (List Call)
    unfolding mprotect native_protection
    protect_section_run r calls =
        mprotect (base + r.start) (r.end - r.start) (native_protection r.protection) calls

    -- The loop's body.
    pub protect_section : Place → Option Run → List Call → Result (Option Run × List Call)
    unfolding protect_section_run
    protect_section p run calls =
        let start = page_floor p.offset page in
        let end = align_up64 (add64 p.offset p.size) page in
        let protection = section_protection p.flags in
        let fresh : Run = record { start = start; end = end; protection = protection } in
        if p.base == 0 || p.size == 0 then ok (run, calls) else elim run [
          | none ↦ ok (some fresh, calls)
          | some r ↦
              if r.protection == protection && leb start r.end
              then ok (some (record r { end = if ltb r.end end then end else r.end }), calls)
              else do calls' ← protect_section_run r calls; ok (some fresh, calls')
        ]

    pub protect_sections : List Place → Option Run → List Call → Result (Option Run × List Call)
    unfolding protect_section
    protect_sections [] run calls = ok (run, calls)
    protect_sections (p ∷ ps) run calls = do
      (run', calls') ← protect_section p run calls
      protect_sections ps run' calls'

    -- The call after the loop.
    pub protect_last : Option Run → List Call → Result (List Call)
    unfolding protect_section_run
    protect_last none calls = ok calls
    protect_last (some r) calls = protect_section_run r calls

    pub finalize_section_protections : ℕ → ℕ → List Place → Result (List Call)
    unfolding mprotect protect_sections protect_last
    finalize_section_protections image_size shim_offset sections = do
      calls₀ ← mprotect base (align_up64 image_size page) (native_protection 0) []
      (run, calls₁) ← protect_sections sections none calls₀
      calls₂ ← protect_last run calls₁
      calls₃ ← mprotect (base + shim_offset) shim_data_offset (native_protection 2) calls₂
      mprotect (base + shim_offset + shim_data_offset) shim_data_size (native_protection 1) calls₃
