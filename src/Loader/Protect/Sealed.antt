-- ===== src/Loader/Protect/Sealed.antt =====
-- After finalize_section_protections every section has the access of its own flags.
use kobox.Prelude.{
  All, Bool, List, [], arith, get_elem?, none, refl, some, suc, ℕ, ◌+◌, ◌<◌, ◌^◌, ◌∙◌, ◌∷◌, ◌≡◌,
  ◌≤◌,
}
use kobox.Elf.Bytes.{ok, parts_of_ok}
use kobox.Loader.Layout.{Place, Layout, section_protection}
use kobox.Loader.Layout.Placed.{end, IsApart, IsLaid}
use kobox.Loader.Protect.{
  Call, native_protection, mprotect, protect_sections, protect_last, finalize_section_protections,
}
use kobox.Loader.Protect.Access.{access_at, access_at-before, mprotect_lem}
use kobox.Loader.Protect.Runs.{IsRow, AllBased}
use kobox.Loader.Protect.Stands.{Accessible, sections-Accessible}

pub All-get_elem :
    {P : Place → Type 0} (qs : List Place)
    → ((k : ℕ) (b : Place) → get_elem? qs k ≡ some b → P b)
    → All P qs
All-get_elem [] f = tt
All-get_elem (q ∷ qs) f = (f 0 q refl, All-get_elem qs (λ k b g. f (suc k) b g))

-- Sections that are laid out by index are a row.
get_elem-IsRow :
    (page : ℕ) (qs : List Place)
    → ((j : ℕ) (p : Place) → get_elem? qs j ≡ some p → 0 < p.size → end p ≤ 2 ^ 61)
    → ((j k : ℕ) (a b : Place)
        → get_elem? qs j ≡ some a
        → get_elem? qs k ≡ some b
        → 0 < a.size
        → 0 < b.size
        → j < k
        → IsApart page a b)
    → IsRow page qs
get_elem-IsRow page [] low apart = tt
get_elem-IsRow page (q ∷ qs) low apart = (
  low 0 q refl,
  All-get_elem qs (λ k b g n n'. apart 0 (suc k) q b refl g n n' (omega arith)),
  get_elem-IsRow page qs (λ j p g. low (suc j) p g)
      (λ j k a b g g' n n' l. apart (suc j) (suc k) a b g g' n n' (omega arith)),
)

module _ (grant : Call → Bool) (page_bits base image_size shim_offset : ℕ) (l : Layout) where
  -- If every call is granted, every byte of every section is left with the access that the
  -- section's flags ask for: read and execute, read and write, or read alone. The sections are laid
  -- out and copied, the page size is a power of two up to 2^40, there are at most 2^16 sections, and
  -- the shim region is behind them.
  pub finalize_section_protections-Accessible :
      (n : ℕ) {calls : List Call} {p : Place}
      → page_bits ≤ 40
      → n ≤ 2 ^ 16
      → IsLaid (2 ^ page_bits) n l
      → AllBased l.sections
      → l.image_size ≤ shim_offset
      → finalize_section_protections grant (2 ^ page_bits) base image_size shim_offset l.sections
        ≡ ok calls
      → (j x : ℕ) → get_elem? l.sections j ≡ some p
      → x < p.size
      → access_at (base + (p.offset + x)) calls
        ≡ some (native_protection (section_protection p.flags))
  unfolding finalize_section_protections Accessible
  finalize_section_protections-Accessible n {calls} wide few laid based behind e j x g b =
      let (calls₀, _, e₀) = parts_of_ok (mprotect grant base _ _ []) _ e in
      let ((run, calls₁), loop, e₁) =
        parts_of_ok (protect_sections grant (2 ^ page_bits) base l.sections none calls₀) _ e₀ in
      let (calls₂, last, e₂) =
        parts_of_ok (protect_last grant (2 ^ page_bits) base run calls₁) _ e₁ in
      let (calls₃, text, e₃) = parts_of_ok (mprotect grant (base + shim_offset) _ _ calls₂) _ e₂ in
      let row =
        get_elem-IsRow (2 ^ page_bits) l.sections
          (λ k q f m. let (_, c) = laid.inside k f m in omega (arith, laid.low))
          (λ j k a b. laid.apart j k {a = a} {b = b}) in
      let own =
        sections-Accessible page_bits wide grant base l.sections j none calls₀ loop last g
          (omega arith) row based tt x b in
      let (_, inside) = laid.inside j g (omega arith) in
      let d = mprotect_lem grant _ _ _ calls₂ text in
      let d' = mprotect_lem grant _ _ _ calls₃ e₃ in
      rw (d', d)
        (access_at-before _ _ _ (omega arith) ∙ access_at-before _ _ calls₂ (omega arith) ∙ own)
