-- ===== src/Loader/Copy/Contents.antt =====
-- The loop that copies the sections keeps what it has copied.
use kobox.Prelude.{
  Bool-cases, List, arith, false, get_elem?, if◌then◌else◌, inl, inr, length, length-set, ltb, set,
  some, true, ℕ, ◌+◌, ◌<◌, ◌==◌, ◌∙◌, ◌≡◌, ◌≢◌, ◌≤◌,
}
use kobox.Elf.Bytes.{Result, ok}
use kobox.Elf.File.{Section}
use kobox.Loader.Layout.{Place, Layout, gs_size, is_allocated}
use kobox.Loader.Layout.Placed.{IsLaid, get_elem?-set_cases}
use kobox.Loader.Layout.Rebased.{with_base, Rebases}
use kobox.Loader.Layout.From.{IsFrom}
use kobox.Loader.Copy.{Image, sht_nobits}
use kobox.Loader.Copy.Bytes.{IsWritten}

module _ (page n : ℕ) (l : Layout) (section_at : ℕ → Result Section) (base size : ℕ)
    (file : List ℕ) where
  -- The first `i` sections are copied, and the places of the others are still zero.
  pub record IsCopied (i : ℕ) (m : Image) : Type 0 where
    pub length_bytes : length m.bytes ≡ size
    pub length_gs : length m.gs ≡ gs_size
    pub count : length m.sections ≡ n
    pub places : Rebases l.sections m.sections
    pub zeroed :
        (j x : ℕ) {p : Place}
        → get_elem? l.sections j ≡ some p
        → i ≤ j
        → x < p.size
        → get_elem? m.bytes (p.offset + x) ≡ some 0
    pub copied :
        (j x : ℕ) (s : Section) {p : Place}
        → get_elem? l.sections j ≡ some p
        → j < i
        → section_at j ≡ ok s
        → x < p.size
        → get_elem? m.bytes (p.offset + x)
          ≡ (if s.type == sht_nobits then some 0 else get_elem? file (s.offset + x))
    pub based :
        (j : ℕ) (s : Section) {p : Place}
        → get_elem? m.sections j ≡ some p
        → j < i
        → section_at j ≡ ok s
        → is_allocated s.flags ≡ true
        → p.base ≡ base + p.offset

  module _ (laid : IsLaid page n l) (from : IsFrom section_at n n l)
      (room : l.image_size ≤ size) where
    -- A section that is not loaded.
    pub skip-IsCopied :
        (i : ℕ) (m : Image)
        → ((p : Place) → get_elem? l.sections i ≡ some p → p.size ≡ 0)
        → ((s : Section) → section_at i ≡ ok s → is_allocated s.flags ≡ false)
        → IsCopied i m
        → IsCopied (i + 1) m
    skip-IsCopied i m empty off h = record {
      length_bytes = h.length_bytes;
      length_gs = h.length_gs;
      count = h.count;
      places = h.places;
      zeroed = λ j x g b lt. h.zeroed j x g (omega arith) lt;
      copied = λ j x s {p} g b read lt. elim (Bool-cases (i == j)) [
        | inl e ↦
            let at : i ≡ j = ground arith in let none' = empty p (rw at g) in absurd (omega arith)
        | inr e ↦ h.copied j x s g (ground arith) read lt
      ];
      based = λ j s {p} g b read on. elim (Bool-cases (i == j)) [
        | inl e ↦ let at : i ≡ j = ground arith in let off' = off s (rw at read) in absurd (cc)
        | inr e ↦ h.based j s g (ground arith) read on
      ];
    }

    -- The section at `i` is written, and its base is set.
    module _ (i : ℕ) (s : Section) (m : Image) (q : Place) (b : ℕ) (bytes' gs' : List ℕ)
        (h : IsCopied i m) (i<n : i < n) (read : section_at i ≡ ok s)
        (old : get_elem? l.sections i ≡ some q) (alike : q.size ≡ s.size)
        (w : IsWritten file s q.offset m.bytes bytes') (kept : length gs' ≡ gs_size) where
      abbrev pub place : Place
      place = with_base (base + q.offset) q

      abbrev pub next : Image
      next = record { bytes = bytes'; gs = gs'; sections = set m.sections i place }

      next_places : Rebases l.sections (set m.sections i place)
      next_places j p g = elim (get_elem?-set_cases m.sections i j place g) [
        | inl (e, same) ↦ (q, base + q.offset, rw e old, same)
        | inr (_, g') ↦ h.places j p g'
      ]

      -- Another section's bytes are not written to.
      untouched :
          (j x : ℕ) {p : Place}
          → get_elem? l.sections j ≡ some p
          → j ≢ i
          → x < p.size
          → get_elem? bytes' (p.offset + x) ≡ get_elem? m.bytes (p.offset + x)
      untouched j x {p} g apart lt = elim (Bool-cases (s.size == 0)) [
        | inl z ↦ w.outside (p.offset + x) (ground arith)
        | inr z ↦
            let more : 0 < q.size = ground arith in
            elim (Bool-cases (ltb j i)) [
              | inl before ↦
                  let a = (laid.apart j i g old (omega arith) more (ground arith)).ordered in
                  w.outside (p.offset + x) (inl (omega arith))
              | inr after ↦
                  let i<j : i < j = ground arith in
                  let a = (laid.apart i j old g more (omega arith) i<j).ordered in
                  w.outside (p.offset + x) (inr (omega arith))
            ]
      ]

      next_copied :
          (j x : ℕ) (t : Section) {p : Place}
          → get_elem? l.sections j ≡ some p
          → j < i + 1
          → section_at j ≡ ok t
          → x < p.size
          → get_elem? bytes' (p.offset + x)
            ≡ (if t.type == sht_nobits then some 0 else get_elem? file (t.offset + x))
      next_copied j x t {p} g lt read' less = elim (Bool-cases (j == i)) [
        | inr e ↦
            let apart : j ≢ i = ground arith in
            untouched j x g apart less ∙ h.copied j x t g (ground arith) read' less
        | inl e ↦
            let at : j ≡ i = ground arith in
            let read'' : section_at i ≡ ok t = rw at at read' in
            let same : s ≡ t = cc in
            let g' : get_elem? l.sections i ≡ some p = rw at at g in
            let same' : q ≡ p = cc in
            let less' : x < q.size = rw same' less in
            let zero' = h.zeroed i x old (omega arith) less' in
            rw (← same, ← same') (w.inside x (omega arith) ∙ rw zero')
      ]

      next_based :
          (j : ℕ) (t : Section) {p : Place}
          → get_elem? (set m.sections i place) j ≡ some p
          → j < i + 1
          → section_at j ≡ ok t
          → is_allocated t.flags ≡ true
          → p.base ≡ base + p.offset
      next_based j t {p} g lt read' on = elim (get_elem?-set_cases m.sections i j place g) [
        | inl (e, same) ↦ rw same
        | inr (apart, g') ↦ h.based j t g' (omega arith) read' on
      ]

      pub add-IsCopied : IsCopied (i + 1) next
      add-IsCopied = record {
        length_bytes = w.size ∙ h.length_bytes;
        length_gs = kept;
        count = length-set m.sections i place ∙ h.count;
        places = next_places;
        zeroed = λ j x g lt less.
            untouched j x g (λ e. absurd (omega arith)) less ∙ h.zeroed j x g (omega arith) less;
        copied = next_copied;
        based = next_based;
      }
