-- ===== src/Loader/Protect/Loaded.antt =====
-- The sections that load_sections has laid out and copied, under finalize_section_protections.
use kobox.Prelude.{
  Bool, List, arith, get_elem?, length, some, true, ℕ, ◌+◌, ◌<◌, ◌^◌, ◌≡◌, ◌≢◌, ◌≤◌,
}
use kobox.Elf.Bytes.{Result, ok}
use kobox.Elf.File.{Section}
use kobox.Loader.Layout.{Place, Layout, gs_size, is_allocated, section_protection, layout_sections}
use kobox.Loader.Layout.Placed.{IsModest}
use kobox.Loader.Layout.Laid.{layout_sections-IsLaid}
use kobox.Loader.Layout.Rebased.{rebased-IsLaid}
use kobox.Loader.Layout.From.{IsFrom, layout_sections-IsFrom}
use kobox.Loader.Copy.{Image, copy_sections}
use kobox.Loader.Copy.Contents.{IsCopied}
use kobox.Loader.Copy.Loaded.{zeroed_image, copy_sections-IsCopied}
use kobox.Loader.Protect.{Call, native_protection, finalize_section_protections}
use kobox.Loader.Protect.Access.{access_at}
use kobox.Loader.Protect.Runs.{AllBased}
use kobox.Loader.Protect.Sealed.{All-get_elem, finalize_section_protections-Accessible}

copied-AllBased :
    (page n : ℕ) (l : Layout) (section_at : ℕ → Result Section) (base size : ℕ) (file : List ℕ)
    (m : Image)
    → base ≢ 0
    → IsFrom section_at n n l
    → IsCopied page n l section_at base size file n m
    → AllBased m.sections
copied-AllBased page n l section_at base size file m nonzero from h =
    All-get_elem m.sections (λ j p g more zero'.
      let (q, c, old, same) = h.places j p g in
      let more' : 0 < q.size = rw same at more in
      let (s, read, on, lt) = from.only j old more' in
      let at = h.based j s g lt read on in nonzero (omega arith))

module _ (grant : Call → Bool) (page_bits n percpu_next : ℕ) (section_at : ℕ → Result Section)
    (base size shim_offset : ℕ) (file gs : List ℕ) (l : Layout) (m : Image) where
  -- Once the sections of a module are laid out, copied and protected without an error, every byte of
  -- a section has the access that the section's flags ask for: read and execute, read and write, or
  -- read alone. The image is not at address 0 and holds the layout, the shim region is behind it,
  -- and the page size, the number of sections, their alignments and their sizes are as the layout
  -- asks.
  pub finalize_section_protections-copy_sections :
      {calls : List Call} {p : Place}
      → page_bits ≤ 40
      → n ≤ 2 ^ 16
      → ((i : ℕ) (s : Section) → section_at i ≡ ok s → is_allocated s.flags ≡ true → IsModest s)
      → base ≢ 0
      → l.image_size ≤ size
      → l.image_size ≤ shim_offset
      → length gs ≡ gs_size
      → layout_sections (2 ^ page_bits) section_at n percpu_next ≡ ok l
      → copy_sections base file l.module_percpu_offset l.module_percpu_size section_at n 0
          (zeroed_image size gs l)
        ≡ ok m
      → finalize_section_protections grant (2 ^ page_bits) base size shim_offset m.sections
        ≡ ok calls
      → (j x : ℕ) → get_elem? m.sections j ≡ some p
      → x < p.size
      → access_at (base + (p.offset + x)) calls
        ≡ some (native_protection (section_protection p.flags))
  finalize_section_protections-copy_sections wide few modest nonzero room behind h laid copied
        sealed j x g b =
      let copied' : IsCopied (2 ^ page_bits) n l section_at base size file n m = rw copied at (
        copy_sections-IsCopied page_bits n percpu_next section_at base size file gs l wide few
          modest laid room h) in
      let from = layout_sections-IsFrom (2 ^ page_bits) section_at n percpu_next laid in
      let laid' =
        rebased-IsLaid (2 ^ page_bits) n l m.sections copied'.places
          (layout_sections-IsLaid page_bits wide section_at modest n percpu_next few laid) in
      finalize_section_protections-Accessible grant page_bits base size shim_offset
        (record l { sections = m.sections }) n wide few laid'
        (copied-AllBased (2 ^ page_bits) n l section_at base size file m nonzero from copied')
        behind sealed j x g b
