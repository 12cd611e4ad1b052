-- ===== src/Loader/Layout/Step.antt =====
-- One more section, at an offset that fits, keeps the sections laid out.
use kobox.Prelude.{
  ==_iff, Bool-cases, Option, ap, arith, false, get_elem?, if◌then◌else◌, inl, inr, some, sym, true,
  ℕ, ◌*◌, ◌+◌, ◌<◌, ◌==◌, ◌^◌, ◌∙◌, ◌≡◌, ◌≢◌, ◌≤◌, ◌⊎◌,
}
use kobox.Elf.File.{Section}
use kobox.Loader.Layout.{Place, Layout, section_protection, protection_changes, write_place}
use kobox.Loader.Layout.Placed.{get_elem?-set_cases, Boundary, end, IsApart, IsLaid, IsOffset}

protection_changes_ne :
    (previous : Option ℕ) (a b : ℕ)
    → previous ≡ some a
    → a ≢ b
    → protection_changes previous b ≡ true
unfolding protection_changes
protection_changes_ne previous a b e n = let n' : b ≢ a = (λ x. n (sym x)) in rw e (ground arith)

record IsNew (s : Section) (offset : ℕ) (p : Place) : Type 0 where
  pub offset_eq : p.offset ≡ offset
  pub size_eq : p.size ≡ s.size
  pub flags_eq : p.flags ≡ s.flags
  pub alignment_eq : p.alignment ≡ (if s.alignment == 0 then 1 else s.alignment)

-- One more section, at an offset that fits.
module _ (page i : ℕ) (s : Section) (l : Layout) (offset : ℕ) (h : IsLaid page i l)
    (o : IsOffset page i s l offset) (few : i < 2 ^ 16) (small : s.size ≤ 2 ^ 40) where
  grown : (write_place offset i s l).image_size ≡ offset + s.size
  unfolding write_place
  grown = let a = h.low in let b = o.near in omega arith

  -- A place that the loop finds afterwards: the new one, or an earlier one.
  place_cases :
      (j : ℕ) {p : Place}
      → get_elem? (write_place offset i s l).sections j ≡ some p
      → ((j ≡ i) × IsNew s offset p) ⊎ ((j ≢ i) × (get_elem? l.sections j ≡ some p))
  unfolding write_place
  place_cases j g = elim (get_elem?-set_cases l.sections i j _ g) [
    | inl (e, f) ↦ inl (
      e,
      record {
        offset_eq = ap (λ p. p.offset) f;
        size_eq = ap (λ p. p.size) f;
        flags_eq = ap (λ p. p.flags) f;
        alignment_eq = ap (λ p. p.alignment) f;
      },
    )
    | inr old ↦ inr old
  ]

  kept_protection :
      s.size ≡ 0 → (write_place offset i s l).previous_protection ≡ l.previous_protection
  unfolding write_place
  kept_protection e = let z : (s.size == 0) ≡ true = ground arith in rw (write_place, z)

  new_protection :
      0 < s.size
      → (write_place offset i s l).previous_protection ≡ some (section_protection s.flags)
  unfolding write_place
  new_protection n = let z : (s.size == 0) ≡ false = ground arith in rw (write_place, z)

  -- Between an earlier section of another protection and the new one lies a page boundary.
  separated :
      (j : ℕ) {p : Place}
      → get_elem? l.sections j ≡ some p
      → 0 < p.size
      → section_protection p.flags ≢ section_protection s.flags
      → Boundary page (end p) offset
  separated j {p} g n d = elim (h.closed j g n) [
    | inl e ↦
        let (m, a, b) = o.crossed (protection_changes_ne l.previous_protection _ _ e d) in
        let (_, c) = h.inside j g n in (m, omega arith, b)
    | inr (m, a, b) ↦ let c = o.above in (m, a, omega arith)
  ]

  next_closed :
      (j : ℕ) {p : Place}
      → get_elem? (write_place offset i s l).sections j ≡ some p
      → 0 < p.size
      → ((write_place offset i s l).previous_protection ≡ some (section_protection p.flags))
        ⊎ Boundary page (end p) (write_place offset i s l).image_size
  next_closed j {p} g n =
      let size = grown in
      let above = o.above in
      elim (place_cases j g) [
        | inl (_, new) ↦
            let n' : 0 < s.size = rw new.size_eq at n in inl (rw new.flags_eq (new_protection n'))
        | inr (_, old) ↦
            let (_, c) = h.inside j old n in
            elim (Bool-cases (s.size == 0)) [
              | inl z ↦
                  let z' : s.size ≡ 0 = ground arith in
                  elim (h.closed j old n) [
                    | inl e ↦ inl (kept_protection z' ∙ e)
                    | inr (m, a, b) ↦ inr (m, a, omega arith)
                  ]
              | inr z ↦
                  let z' : 0 < s.size = ground arith in
                  elim (Bool-cases (section_protection p.flags == section_protection s.flags)) [
                    | inl same ↦ inl (new_protection z' ∙ ap some (sym ((==_iff _ _).0 same)))
                    | inr other ↦
                        let (m, a, b) = separated j old n (λ e. cc (other, (==_iff _ _).1 e)) in
                        inr (m, a, omega arith)
                  ]
            ]
      ]

  next-IsApart :
      (j k : ℕ) {a b : Place}
      → get_elem? (write_place offset i s l).sections j ≡ some a
      → get_elem? (write_place offset i s l).sections k ≡ some b
      → 0 < a.size
      → 0 < b.size
      → j < k
      → IsApart page a b
  next-IsApart j k {a} {b} g g' n n' lt = elim (place_cases j g) [
    | inl (e, _) ↦ elim (place_cases k g') [
      | inl (e', _) ↦ absurd (omega arith)
      | inr (_, old) ↦ let (c, _) = h.inside k old n' in absurd (omega arith)
    ]
    | inr (_, old) ↦ elim (place_cases k g') [
      | inr (_, old') ↦ h.apart j k old old' n n' lt
      | inl (_, new) ↦
          let (_, c) = h.inside j old n in
          let d = o.above in
          record {
            ordered = omega (arith, new.offset_eq);
            split = λ x. rw new.offset_eq (separated j old n (λ y. x (rw new.flags_eq y)));
          }
    ]
  ]

  pub write_place-IsLaid : IsLaid page (i + 1) (write_place offset i s l)
  write_place-IsLaid = record {
    low = omega (arith, grown, h.low, o.near);
    inside = λ j {p} g n. elim (place_cases j g) [
      | inl (e, new) ↦ (omega arith, omega (arith, grown, new.offset_eq, new.size_eq))
      | inr (_, old) ↦ let (a, b) = h.inside j old n in (omega arith, omega (arith, grown, o.above))
    ];
    aligned = λ j {p} g n. elim (place_cases j g) [
      | inl (_, new) ↦
          let (q, e) = o.multiple in (q, new.offset_eq ∙ e ∙ ap (λ a. q * a) (sym new.alignment_eq))
      | inr (_, old) ↦ h.aligned j old n
    ];
    closed = next_closed;
    apart = next-IsApart;
  }
