-- ===== src/Loader/Layout/Placed.antt =====
-- The sections that the layout places: in order, apart, aligned and inside the image, with a page
-- boundary between sections of different protection.
use kobox.Prelude.{
  Bool-cases, List, [], ap, arith, get_elem?, if◌then◌else◌, inl, inr, refl, set, some, suc, true,
  zero, ℕ, ◌*◌, ◌+◌, ◌-◌, ◌/◌, ◌<◌, ◌==◌, ◌^◌, ◌∷◌, ◌≡◌, ◌≢◌, ◌≤◌, ◌⊎◌,
}
use kobox.Elf.File.{Section}
use kobox.Loader.Layout.{
  Place, Layout, section_protection, protection_changes, align_up64, section_offset,
}
use kobox.Loader.Layout.Align.{two-pow-le, align_up64_eq, align_up64_bounds}

pub get_elem?-set_cases :
    (xs : List Place) (i j : ℕ) (v : Place) {p : Place}
    → get_elem? (set xs i v) j ≡ some p
    → ((j ≡ i) × (p ≡ v)) ⊎ ((j ≢ i) × (get_elem? xs j ≡ some p))
get_elem?-set_cases [] i j v h = absurd (cc)
get_elem?-set_cases (x ∷ xs) zero zero v h = inl (refl, cc)
get_elem?-set_cases (x ∷ xs) zero (suc j) v h = inr (omega arith, h)
get_elem?-set_cases (x ∷ xs) (suc i) zero v h = inr (omega arith, h)
get_elem?-set_cases (x ∷ xs) (suc i) (suc j) v h = elim (get_elem?-set_cases xs i j v h) [
  | inl (e, f) ↦ inl (ap suc e, f)
  | inr (n, f) ↦ inr (λ e. n (omega arith), f)
]

-- A page boundary lies between `from` and `to`.
abbrev pub Boundary : ℕ → ℕ → ℕ → Type 0
Boundary page from to = (m : ℕ) × (from ≤ m * page) × (m * page ≤ to)

abbrev pub end : Place → ℕ
end p = p.offset + p.size

pub record IsApart (page : ℕ) (a b : Place) : Type 0 where
  pub ordered : end a ≤ b.offset
  pub split :
      section_protection a.flags ≢ section_protection b.flags → Boundary page (end a) b.offset

-- The alignment is a power of two, and neither it nor the size is beyond 2^40.
pub record IsModest (s : Section) : Type 0 where
  pub bits : ℕ
  pub few : bits ≤ 40
  pub power : (if s.alignment == 0 then 1 else s.alignment) ≡ 2 ^ bits
  pub small : s.size ≤ 2 ^ 40

-- The layout after the first `i` sections.
pub record IsLaid (page i : ℕ) (l : Layout) : Type 0 where
  pub low : l.image_size ≤ i * 2 ^ 42
  pub inside :
      (j : ℕ) {p : Place}
      → get_elem? l.sections j ≡ some p
      → 0 < p.size
      → (j < i) × (end p ≤ l.image_size)
  pub aligned :
      (j : ℕ) {p : Place}
      → get_elem? l.sections j ≡ some p
      → 0 < p.size
      → (q : ℕ) × (p.offset ≡ q * p.alignment)
  pub closed :
      (j : ℕ) {p : Place}
      → get_elem? l.sections j ≡ some p
      → 0 < p.size
      → (l.previous_protection ≡ some (section_protection p.flags))
        ⊎ Boundary page (end p) l.image_size
  pub apart :
      (j k : ℕ) {a b : Place}
      → get_elem? l.sections j ≡ some a
      → get_elem? l.sections k ≡ some b
      → 0 < a.size
      → 0 < b.size
      → j < k
      → IsApart page a b

-- What the offset of a section must be to keep the layout.
pub record IsOffset (page i : ℕ) (s : Section) (l : Layout) (offset : ℕ) : Type 0 where
  pub above : l.image_size ≤ offset
  pub near : offset ≤ l.image_size + 2 ^ 41
  pub multiple : (q : ℕ) × (offset ≡ q * (if s.alignment == 0 then 1 else s.alignment))
  pub crossed :
      protection_changes l.previous_protection (section_protection s.flags) ≡ true
      → Boundary page l.image_size offset

rounded-IsOffset :
    (page i image : ℕ) (s : Section) (l : Layout) (m : IsModest s)
    → i < 2 ^ 16
    → l.image_size ≤ i * 2 ^ 42
    → l.image_size ≤ image
    → image ≤ l.image_size + 2 ^ 40
    → (protection_changes l.previous_protection (section_protection s.flags) ≡ true
        → (q : ℕ) × (image ≡ q * page))
    → IsOffset page i s l (align_up64 image (2 ^ m.bits))
rounded-IsOffset page i image s l m few low above near cross =
    let wide : image ≤ 2 ^ 62 = omega arith in
    let (up, down) = align_up64_bounds m.bits image m.few wide in
    let bound = two-pow-le m.bits m.few in
    let multiple : (q : ℕ) × (align_up64 image (2 ^ m.bits)
          ≡ q * (if s.alignment == 0 then 1 else s.alignment)) =
      (
        (image + (2 ^ m.bits - 1)) / 2 ^ m.bits,
        rw m.power (align_up64_eq m.bits image m.few wide),
      ) in
    record {
      above = omega arith;
      near = omega arith;
      multiple = multiple;
      crossed = λ c. let (q, e) = cross c in (q, omega arith, omega arith);
    }

pub section_offset-IsOffset :
    (page_bits i : ℕ) (s : Section) (l : Layout)
    → page_bits ≤ 40
    → i < 2 ^ 16
    → l.image_size ≤ i * 2 ^ 42
    → IsModest s
    → IsOffset (2 ^ page_bits) i s l (section_offset (2 ^ page_bits) s l)
unfolding section_offset
section_offset-IsOffset page_bits i s l b few low m =
    let wide : l.image_size ≤ 2 ^ 62 = omega arith in
    let (up, down) = align_up64_bounds page_bits l.image_size b wide in
    let bound = two-pow-le page_bits b in
    elim (Bool-cases (protection_changes l.previous_protection (section_protection s.flags))) [
      | inl y ↦
          rw (section_offset, y, m.power)
            (rounded-IsOffset (2 ^ page_bits) i (align_up64 l.image_size (2 ^ page_bits)) s l m few
              low up (omega arith)
              (λ _. (
                (l.image_size + (2 ^ page_bits - 1)) / 2 ^ page_bits,
                align_up64_eq page_bits l.image_size b wide,
              )))
      | inr n ↦
          rw (section_offset, n, m.power)
            (rounded-IsOffset (2 ^ page_bits) i l.image_size s l m few low (omega arith)
              (omega arith) (λ c. absurd (cc)))
    ]
