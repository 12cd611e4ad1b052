-- ===== src/Loader/Copy/Loaded.antt =====
-- The loop that copies the sections, from the layout and a zeroed image.
use mathlib.Core.Path.{subst}
use kobox.Prelude.{
  Bool-cases, List, arith, false, get_elem?, get_elem?-lt, inl, inr, length, length-replicate, refl,
  replicate, some, suc, true, zero, ℕ, ◌+◌, ◌<◌, ◌==◌, ◌^◌, ◌≡◌, ◌≤◌,
}
use kobox.Elf.Bytes.{Result, ok}
use kobox.Elf.File.{Section}
use kobox.Loader.Layout.{Place, Layout, gs_size, is_allocated, layout_sections}
use kobox.Loader.Layout.Placed.{IsModest, IsLaid}
use kobox.Loader.Layout.Laid.{layout_sections-IsLaid}
use kobox.Loader.Layout.Rebased.{with_base}
use kobox.Loader.Layout.From.{IsFrom, layout_sections-IsFrom}
use kobox.Loader.Copy.{Image, copy_bytes, copy_percpu, copy_place, copy_section, copy_sections}
use kobox.Loader.Copy.Bytes.{IsWritten, Safely, >>=-Safely, copy_bytes-Safely, copy_percpu-Safely}
use kobox.Loader.Copy.Contents.{IsCopied, skip-IsCopied, add-IsCopied}

module _ (page n : ℕ) (l : Layout) (section_at : ℕ → Result Section) (base size : ℕ) (file : List ℕ)
    (percpu_offset percpu_size : ℕ) (laid : IsLaid page n l) (from : IsFrom section_at n n l)
    (room : l.image_size ≤ size) where
  abbrev Copied : ℕ → Image → Type 0
  Copied i m = IsCopied page n l section_at base size file i m

  unloaded_empty :
      (i : ℕ) (s : Section) (p : Place)
      → section_at i ≡ ok s
      → is_allocated s.flags ≡ false
      → get_elem? l.sections i ≡ some p
      → p.size ≡ 0
  unloaded_empty i s p read off g = elim (Bool-cases (p.size == 0)) [
    | inl z ↦ ground arith
    | inr z ↦
        let more : 0 < p.size = ground arith in
        let (t, read', on, _) = from.only i g more in
        let same : s ≡ t = cc in let on' : is_allocated s.flags ≡ true = rw same on in absurd (cc)
  ]

  copy_place-Safely :
      (i : ℕ) (s : Section) (m : Image) (q : Place) (b : ℕ)
      → Copied i m
      → i < n
      → section_at i ≡ ok s
      → get_elem? l.sections i ≡ some q
      → q.size ≡ s.size
      → Safely
          (copy_place base file percpu_offset percpu_size s i (with_base b q) m)
          (Copied (i + 1))
  unfolding copy_place
  copy_place-Safely i s m q b h lt read old alike = elim (Bool-cases (q.size == 0)) [
    | inl z ↦
        let none' : s.size ≡ 0 = ground arith in
        rw (copy_place, z)
          (add-IsCopied page n l section_at base size file laid from room i s m q b m.bytes m.gs h
            lt read old alike
            (record { size = refl; outside = λ k o. refl; inside = λ k o. absurd (omega arith) })
            h.length_gs)
    | inr z ↦
        let more : 0 < q.size = ground arith in
        let (_, inside) = laid.inside i old more in
        let fits : q.offset + s.size ≤ length m.bytes = omega (arith, h.length_bytes) in
        rw (copy_place, z)
          (>>=-Safely (IsWritten file s q.offset m.bytes) (Copied (i + 1))
            (copy_bytes file s q.offset m.bytes) _ (copy_bytes-Safely file s q.offset m.bytes fits)
            (λ bytes' _ w.
              >>=-Safely (λ gs'. length gs' ≡ gs_size) (Copied (i + 1))
                (copy_percpu file percpu_offset percpu_size s m.gs) _
                (copy_percpu-Safely file percpu_offset percpu_size s m.gs h.length_gs)
                (λ gs' _ kept.
                  add-IsCopied page n l section_at base size file laid from room i s m q b bytes'
                    gs' h lt read old alike w kept)))
  ]

  copy_section-Safely :
      (i : ℕ) (s : Section) (m : Image)
      → Copied i m
      → i < n
      → section_at i ≡ ok s
      → Safely (copy_section base file percpu_offset percpu_size s i m) (Copied (i + 1))
  unfolding copy_section
  copy_section-Safely i s m h lt read = elim (Bool-cases (is_allocated s.flags)) [
    | inr off ↦
        rw (copy_section, off)
          (skip-IsCopied page n l section_at base size file laid from room i m
            (λ p g. unloaded_empty i s p read off g)
            (λ t read'. let same : s ≡ t = cc in rw (← same) off) h)
    | inl on ↦
        let (p', at) = get_elem?-lt m.sections i (omega (arith, h.count)) in
        let (q, b, old, same) = h.places i p' at in
        let (q', old', alike, _) = from.made i s lt read on in
        let same' : q' ≡ q = cc in
        rw (copy_section, on, at, same)
          (copy_place-Safely i s m q b h lt read old (rw same' at alike))
  ]

  copy_sections-Safely :
      (k i : ℕ) (m : Image)
      → i + k ≡ n
      → Copied i m
      → Safely (copy_sections base file percpu_offset percpu_size section_at k i m) (Copied n)
  unfolding copy_sections
  copy_sections-Safely zero i m e h = let z : i ≡ n = omega arith in subst (λ k. Copied k m) z h
  copy_sections-Safely (suc k) i m e h =
      let (s, read) = from.readable i (omega arith) in
      rw (copy_sections, read)
        (>>=-Safely (Copied (i + 1)) (Copied n)
          (copy_section base file percpu_offset percpu_size s i m) _
          (copy_section-Safely i s m h (omega arith) read)
          (λ m' _ h'. copy_sections-Safely k (i + 1) m' (omega arith) h'))

-- The zeroed image, and the layout's places.
abbrev pub zeroed_image : ℕ → List ℕ → Layout → Image
zeroed_image size gs l = record { bytes = replicate size 0; gs = gs; sections = l.sections }

get_elem?-replicate : (n k : ℕ) → k < n → get_elem? (replicate n zero) k ≡ some zero
get_elem?-replicate zero k h = absurd (omega arith)
get_elem?-replicate (suc n) zero h = refl
get_elem?-replicate (suc n) (suc k) h = get_elem?-replicate n k (omega arith)

start-IsCopied :
    (page n : ℕ) (l : Layout) (section_at : ℕ → Result Section) (base size : ℕ) (file gs : List ℕ)
    → IsLaid page n l
    → IsFrom section_at n n l
    → l.image_size ≤ size
    → length gs ≡ gs_size
    → IsCopied page n l section_at base size file 0 (zeroed_image size gs l)
start-IsCopied page n l section_at base size file gs laid from room h = record {
  length_bytes = length-replicate size zero;
  length_gs = h;
  count = from.count;
  places = λ j p g. (p, p.base, g, refl);
  zeroed = λ j x {p} g b lt.
      let (_, inside) = laid.inside j g (omega arith) in
      get_elem?-replicate size (p.offset + x) (omega arith);
  copied = λ j x s g b. absurd (omega arith);
  based = λ j s g b. absurd (omega arith);
}

module _ (page_bits n percpu_next : ℕ) (section_at : ℕ → Result Section) (base size : ℕ)
    (file gs : List ℕ) (l : Layout) where
  -- Copying the sections of a layout into a zeroed image that holds it writes nothing outside the
  -- image and the per-CPU area. If it ends without an error, every loaded section has its bytes of
  -- the file at its place, or zeros if it has none in the file, and its base is the address of its
  -- place. The page size, the number of sections, their alignments and their sizes are as the layout
  -- asks.
  pub copy_sections-IsCopied :
      page_bits ≤ 40
      → n ≤ 2 ^ 16
      → ((i : ℕ) (s : Section) → section_at i ≡ ok s → is_allocated s.flags ≡ true → IsModest s)
      → layout_sections (2 ^ page_bits) section_at n percpu_next ≡ ok l
      → l.image_size ≤ size
      → length gs ≡ gs_size
      → Safely
          (copy_sections base file l.module_percpu_offset l.module_percpu_size section_at n 0
            (zeroed_image size gs l))
          (IsCopied (2 ^ page_bits) n l section_at base size file n)
  copy_sections-IsCopied wide few modest e room h =
      let laid = layout_sections-IsLaid page_bits wide section_at modest n percpu_next few e in
      let from = layout_sections-IsFrom (2 ^ page_bits) section_at n percpu_next e in
      copy_sections-Safely (2 ^ page_bits) n l section_at base size file l.module_percpu_offset
        l.module_percpu_size laid from room n 0 (zeroed_image size gs l) (omega arith)
        (start-IsCopied (2 ^ page_bits) n l section_at base size file gs laid from room h)
