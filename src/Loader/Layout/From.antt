-- ===== src/Loader/Layout/From.antt =====
-- The places are those of the file's loaded sections.
use kobox.Prelude.{
  Bool-cases, List, [], ap, arith, false, get_elem?, if◌then◌else◌, inl, inr, length,
  length-replicate, length-set, refl, same_text, set, some, suc, sym, true, zero, ℕ, ◌+◌, ◌<◌, ◌==◌,
  ◌∙◌, ◌∷◌, ◌≡◌, ◌≢◌,
}
use kobox.Elf.Bytes.{Result, ok, ◌>>=◌, parts_of_ok}
use kobox.Elf.File.{Section}
use kobox.Loader.Layout.{
  Place, Layout, no_place, start_layout, is_allocated, percpu_name, place_percpu, section_offset,
  write_place, place_section, place_sections, layout_sections,
}
use kobox.Loader.Layout.Placed.{get_elem?-set_cases}
use kobox.Loader.Layout.Laid.{place_percpu_kept, replicate-no_place}

-- After the first `i` of `n` sections.
pub record IsFrom (section_at : ℕ → Result Section) (n i : ℕ) (l : Layout) : Type 0 where
  pub count : length l.sections ≡ n
  pub readable : (j : ℕ) → j < i → (s : Section) × (section_at j ≡ ok s)
  pub made :
      (j : ℕ) (s : Section)
      → j < i
      → section_at j ≡ ok s
      → is_allocated s.flags ≡ true
      → (p : Place) × (get_elem? l.sections j ≡ some p) × (p.size ≡ s.size) × (p.flags ≡ s.flags)
  pub only :
      (j : ℕ) {p : Place}
      → get_elem? l.sections j ≡ some p
      → 0 < p.size
      → (s : Section) × (section_at j ≡ ok s) × (is_allocated s.flags ≡ true) × (j < i)

pub get_elem?-set_place :
    (xs : List Place) (i : ℕ) (v : Place) → i < length xs → get_elem? (set xs i v) i ≡ some v
get_elem?-set_place [] i v h = absurd (omega arith)
get_elem?-set_place (x ∷ xs) zero v h = refl
get_elem?-set_place (x ∷ xs) (suc i) v h = get_elem?-set_place xs i v (omega arith)

pub get_elem?-set_other :
    (xs : List Place) (i j : ℕ) (v : Place) → i ≢ j → get_elem? (set xs i v) j ≡ get_elem? xs j
get_elem?-set_other [] i j v h = refl
get_elem?-set_other (x ∷ xs) zero zero v h = absurd (h refl)
get_elem?-set_other (x ∷ xs) zero (suc j) v h = refl
get_elem?-set_other (x ∷ xs) (suc i) zero v h = refl
get_elem?-set_other (x ∷ xs) (suc i) (suc j) v h = get_elem?-set_other xs i j v (λ e. h (ap suc e))

abbrev place_of : ℕ → Section → Place
place_of offset s = record {
  base = 0;
  offset = offset;
  size = s.size;
  alignment = if s.alignment == 0 then 1 else s.alignment;
  flags = s.flags;
}

-- The sections of the layout that the loop's body leaves, for a section that is loaded.
place_sections_eq :
    (page i : ℕ) (s : Section) (l : Layout) {l' : Layout}
    → place_section page i s l ≡ ok l'
    → is_allocated s.flags ≡ true
    → l'.sections ≡ set l.sections i (place_of (section_offset page s l) s)
unfolding place_section write_place
place_sections_eq page i s l {l'} e y = elim (Bool-cases (same_text s.name percpu_name)) [
  | inr n ↦
      let done : write_place (section_offset page s l) i s l ≡ l' = ground arith in
      sym (ap (λ k. k.sections) done)
  | inl p ↦
      let run : place_percpu s (if s.alignment == 0 then 1 else s.alignment) l
            >>= (λ k. ok (write_place (section_offset page s l) i s k))
          ≡ ok l' =
        rw (place_section, y, p) at e in
      let (k, kept, done) =
        parts_of_ok (place_percpu s (if s.alignment == 0 then 1 else s.alignment) l)
          (λ k. ok (write_place (section_offset page s l) i s k)) run in
      let (offset, size, next, same) =
        place_percpu_kept s (if s.alignment == 0 then 1 else s.alignment) l kept in
      let done' : write_place (section_offset page s l) i s k ≡ l' = cc in
      sym (ap (λ m. m.sections) done')
      ∙ ap (λ m. set m.sections i (place_of (section_offset page s l) s)) same
]

place_sections_skip :
    (page i : ℕ) (s : Section) (l : Layout) {l' : Layout}
    → place_section page i s l ≡ ok l'
    → is_allocated s.flags ≡ false
    → l'.sections ≡ l.sections
unfolding place_section
place_sections_skip page i s l {l'} e n =
    let same : l ≡ l' = ground arith in ap (λ k. k.sections) (sym same)

module _ (page : ℕ) (section_at : ℕ → Result Section) (n : ℕ) where
  read_next :
      (i : ℕ) (s : Section)
      → ((j : ℕ) → j < i → (t : Section) × (section_at j ≡ ok t))
      → section_at i ≡ ok s
      → (j : ℕ) → j < i + 1
      → (t : Section) × (section_at j ≡ ok t)
  read_next i s old read j lt = elim (Bool-cases (i == j)) [
    | inl e ↦ let at : i ≡ j = ground arith in (s, rw (← at) read)
    | inr e ↦ old j (ground arith)
  ]

  skip-IsFrom :
      (i : ℕ) (s : Section) (l l' : Layout)
      → section_at i ≡ ok s
      → is_allocated s.flags ≡ false
      → l'.sections ≡ l.sections
      → IsFrom section_at n i l
      → IsFrom section_at n (i + 1) l'
  skip-IsFrom i s l l' read off same h = record {
    count = ap length same ∙ h.count;
    readable = read_next i s (h.readable) read;
    made = λ j t b read' y. elim (Bool-cases (i == j)) [
      | inl e ↦
          let at : i ≡ j = ground arith in
          let read'' : section_at i ≡ ok t = rw at read' in
          let alike : s ≡ t = cc in
          let off' : is_allocated t.flags ≡ false = rw alike at off in absurd (cc)
      | inr m ↦ rw same (h.made j t (ground arith) read' y)
    ];
    only =
        λ j {p} g m. let (t, read', y, b) = h.only j (rw same at g) m in (t, read', y, omega arith);
  }

  add-IsFrom :
      (i offset : ℕ) (s : Section) (l l' : Layout)
      → section_at i ≡ ok s
      → is_allocated s.flags ≡ true
      → l'.sections ≡ set l.sections i (place_of offset s)
      → i < n
      → IsFrom section_at n i l
      → IsFrom section_at n (i + 1) l'
  add-IsFrom i offset s l l' read on same b h = record {
    count = ap length same ∙ length-set l.sections i (place_of offset s) ∙ h.count;
    readable = read_next i s (h.readable) read;
    made = λ j t lt read' y. elim (Bool-cases (i == j)) [
      | inl e ↦
          let at : i ≡ j = ground arith in
          let read'' : section_at i ≡ ok t = rw at read' in
          let alike : s ≡ t = cc in
          let here =
            get_elem?-set_place l.sections i (place_of offset s) (omega (arith, h.count)) in
          (place_of offset s, rw (same, ← at) here, ap (λ s. s.size) alike, ap (λ s. s.flags) alike)
      | inr m ↦
          let apart : i ≢ j = ground arith in
          rw (same, get_elem?-set_other l.sections i j (place_of offset s) apart)
            (h.made j t (ground arith) read' y)
    ];
    only = λ j {p} g m.
        elim (get_elem?-set_cases l.sections i j (place_of offset s) (rw same at g)) [
          | inl (e, _) ↦ (s, rw e read, on, omega arith)
          | inr (_, old) ↦ let (t, read', y, lt) = h.only j old m in (t, read', y, omega arith)
        ];
  }

  place_sections-IsFrom :
      (k i : ℕ) (l : Layout) {l' : Layout}
      → i + k ≡ n
      → place_sections page section_at k i l ≡ ok l'
      → IsFrom section_at n i l
      → IsFrom section_at n n l'
  unfolding place_sections
  place_sections-IsFrom zero i l {l'} b e h =
      let same : l ≡ l' = cc in
      let z : i ≡ n = omega arith in let h' : IsFrom section_at n n l = rw z at h in rw (← same) h'
  place_sections-IsFrom (suc k) i l b e h =
      let (s, read, rest) = parts_of_ok (section_at i) _ e in
      let (m, place, rest') = parts_of_ok (place_section page i s l) _ rest in
      let next : IsFrom section_at n (i + 1) m = elim (Bool-cases (is_allocated s.flags)) [
        | inl y ↦
            add-IsFrom i (section_offset page s l) s l m read y
              (place_sections_eq page i s l place y) (omega arith) h
        | inr f ↦ skip-IsFrom i s l m read f (place_sections_skip page i s l place f) h
      ] in
      place_sections-IsFrom k (i + 1) m (omega arith) rest' next

  pub layout_sections-IsFrom :
      (percpu_next : ℕ) {l : Layout}
      → layout_sections page section_at n percpu_next ≡ ok l
      → IsFrom section_at n n l
  unfolding layout_sections
  layout_sections-IsFrom percpu_next e =
      place_sections-IsFrom n 0 (start_layout n percpu_next) (omega arith) e (record {
        count = length-replicate n no_place;
        readable = λ j b. absurd (omega arith);
        made = λ j s b. absurd (omega arith);
        only = λ j g m. absurd (replicate-no_place n j g m);
      })
