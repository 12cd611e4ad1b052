-- ===== src/Loader/Layout/Laid.antt =====
-- Every round of the layout loop keeps the sections laid out.
use kobox.Prelude.{
  Bool-cases, ap, arith, get_elem?, if◌then◌else◌, inl, inr, replicate, same_text, some, suc, true,
  zero, ℕ, ◌+◌, ◌<◌, ◌==◌, ◌^◌, ◌≡◌, ◌≤◌,
}
use kobox.Elf.Bytes.{Result, ok, ◌>>=◌, parts_of_ok}
use kobox.Elf.File.{Section}
use kobox.Loader.Layout.{
  Place, Layout, no_place, start_layout, is_allocated, percpu_name, place_percpu, section_offset,
  write_place, place_section, place_sections, layout_sections,
}
use kobox.Loader.Layout.Placed.{IsModest, IsLaid, IsOffset, section_offset-IsOffset}
use kobox.Loader.Layout.Step.{write_place-IsLaid}

-- The same layout with other per-CPU fields.
abbrev pub with_percpu : ℕ → ℕ → ℕ → Layout → Layout
with_percpu offset size next l = record l {
  module_percpu_offset = offset;
  module_percpu_size = size;
  percpu_next = next;
}

pub place_percpu_kept :
    (s : Section) (alignment : ℕ) (l : Layout) {l' : Layout}
    → place_percpu s alignment l ≡ ok l'
    → (offset : ℕ) × (size : ℕ) × (next : ℕ) × (l' ≡ with_percpu offset size next l)
unfolding place_percpu
place_percpu_kept s alignment l {l'} e =
    (l'.module_percpu_offset, l'.module_percpu_size, l'.percpu_next, ground arith)

percpu-IsLaid :
    (page i offset size next : ℕ) (l : Layout)
    → IsLaid page i l
    → IsLaid page i (with_percpu offset size next l)
percpu-IsLaid page i offset size next l h = record {
  low = h.low;
  inside = h.inside;
  aligned = h.aligned;
  closed = h.closed;
  apart = h.apart;
}

percpu-IsOffset :
    (page i at offset size next : ℕ) (s : Section) (l : Layout)
    → IsOffset page i s l at
    → IsOffset page i s (with_percpu offset size next l) at
percpu-IsOffset page i at offset size next s l o = record {
  above = o.above;
  near = o.near;
  multiple = o.multiple;
  crossed = o.crossed;
}

IsLaid-skip : (page i : ℕ) (l : Layout) → IsLaid page i l → IsLaid page (i + 1) l
IsLaid-skip page i l h = record {
  low = omega (arith, h.low);
  inside = λ j g n. let (a, b) = h.inside j g n in (omega arith, b);
  aligned = h.aligned;
  closed = h.closed;
  apart = h.apart;
}

pub replicate-no_place :
    (n j : ℕ) {p : Place} → get_elem? (replicate n no_place) j ≡ some p → 0 < p.size → ⊥
replicate-no_place zero j h b = cc
replicate-no_place (suc n) zero {p} h b =
    let e : p ≡ no_place = cc in omega (arith, ap (λ q. q.size) e)
replicate-no_place (suc n) (suc j) h b = replicate-no_place n j h b

start-IsLaid : (page n next : ℕ) → IsLaid page 0 (start_layout n next)
start-IsLaid page n next = record {
  low = omega arith;
  inside = λ j g b. absurd (replicate-no_place n j g b);
  aligned = λ j g b. absurd (replicate-no_place n j g b);
  closed = λ j g b. absurd (replicate-no_place n j g b);
  apart = λ j k g g' b b' lt. absurd (replicate-no_place n j g b);
}

module _ (page_bits : ℕ) (wide : page_bits ≤ 40) where
  place_section-IsLaid :
      (i : ℕ) (s : Section) (l : Layout) {l' : Layout}
      → place_section (2 ^ page_bits) i s l ≡ ok l'
      → i < 2 ^ 16
      → (is_allocated s.flags ≡ true → IsModest s)
      → IsLaid (2 ^ page_bits) i l
      → IsLaid (2 ^ page_bits) (i + 1) l'
  unfolding place_section
  place_section-IsLaid i s l {l'} e few modest h = elim (Bool-cases (is_allocated s.flags)) [
    | inr n ↦ let same : l ≡ l' = ground arith in rw (← same) (IsLaid-skip (2 ^ page_bits) i l h)
    | inl y ↦
        let m = modest y in
        let o = section_offset-IsOffset page_bits i s l wide few h.low m in
        elim (Bool-cases (same_text s.name percpu_name)) [
          | inr n ↦
              let done : write_place (section_offset (2 ^ page_bits) s l) i s l ≡ l' =
                ground arith in
              rw (← done) (write_place-IsLaid (2 ^ page_bits) i s l _ h o few m.small)
          | inl p ↦
              let run : place_percpu s (if s.alignment == 0 then 1 else s.alignment) l
                    >>= (λ k. ok (write_place (section_offset (2 ^ page_bits) s l) i s k))
                  ≡ ok l' =
                rw (place_section, y, p) at e in
              let (k, kept, done) =
                parts_of_ok (place_percpu s (if s.alignment == 0 then 1 else s.alignment) l)
                  (λ k. ok (write_place (section_offset (2 ^ page_bits) s l) i s k)) run in
              let (offset, size, next, same) =
                place_percpu_kept s (if s.alignment == 0 then 1 else s.alignment) l kept in
              let done' : write_place (section_offset (2 ^ page_bits) s l) i s
                    (with_percpu offset size next l)
                  ≡ l' =
                let d : ok (
                      write_place (section_offset (2 ^ page_bits) s l) i s
                        (with_percpu offset size next l))
                    ≡ ok l' =
                  rw same at done in
                cc in
              rw (← done') (
                write_place-IsLaid (2 ^ page_bits) i s (with_percpu offset size next l) _
                  (percpu-IsLaid _ i offset size next l h)
                  (percpu-IsOffset _ i _ offset size next s l o) few m.small)
        ]
  ]

  module _ (section_at : ℕ → Result Section)
      (modest : (i : ℕ) (s : Section)
        → section_at i ≡ ok s
        → is_allocated s.flags ≡ true
        → IsModest s) where
    place_sections-IsLaid :
        (n i : ℕ) (l : Layout) {l' : Layout}
        → i + n ≤ 2 ^ 16
        → place_sections (2 ^ page_bits) section_at n i l ≡ ok l'
        → IsLaid (2 ^ page_bits) i l
        → IsLaid (2 ^ page_bits) (i + n) l'
    unfolding place_sections
    place_sections-IsLaid zero i l {l'} b e h =
        let same : l ≡ l' = cc in let z : i + 0 ≡ i = omega arith in rw (← same) (rw z h)
    place_sections-IsLaid (suc n) i l b e h =
        let (s, read, rest) = parts_of_ok (section_at i) _ e in
        let (k, place, rest') = parts_of_ok (place_section (2 ^ page_bits) i s l) _ rest in
        let next : i + 1 + n ≡ i + suc n = omega arith in
        rw (← next) (
          place_sections-IsLaid n (i + 1) k (omega arith) rest'
            (place_section-IsLaid i s l place (omega arith) (modest i s read) h))

    -- The sections of a module lie in the image in their order and apart, each at a multiple of its
    -- alignment, and a page boundary separates any two of different protection, if they are laid
    -- out without error, there are at most 2^16 of them, the page size is a power of two up to
    -- 2^40, and the loaded ones have power-of-two alignments and sizes up to 2^40.
    pub layout_sections-IsLaid :
        (section_count percpu_next : ℕ) {l : Layout}
        → section_count ≤ 2 ^ 16
        → layout_sections (2 ^ page_bits) section_at section_count percpu_next ≡ ok l
        → IsLaid (2 ^ page_bits) section_count l
    unfolding layout_sections
    layout_sections-IsLaid section_count percpu_next few e =
        let z : 0 + section_count ≡ section_count = omega arith in
        rw (← z) (
          place_sections-IsLaid section_count 0 (start_layout section_count percpu_next)
            (omega arith) e (start-IsLaid (2 ^ page_bits) section_count percpu_next))
