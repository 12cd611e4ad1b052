-- ===== src/Loader/Layout/Tests.antt =====
-- A text section of 100 bytes and a zeroed data section of 50, with pages of 4096 bytes.
use kobox.Prelude.{
  [], arith, invalid, refl, same_text, some, suc, true, u64_mod, zero, ℕ, ◌-◌, ◌^◌, ◌∷◌, ◌≡◌,
}
use kobox.Elf.Bytes.{Result, ok, err}
use kobox.Elf.File.{Section}
use kobox.Loader.Layout.{
  Layout, is_allocated, align_up64, place_percpu, section_offset, layout_sections,
}
use kobox.Loader.Layout.Placed.{IsModest, IsLaid}
use kobox.Loader.Layout.Laid.{layout_sections-IsLaid}

abbrev section : ℕ → ℕ → ℕ → ℕ → Section
section type flags size alignment = record {
  name = [];
  type = type;
  flags = flags;
  address = 0;
  offset = 64;
  size = size;
  link = 0;
  info = 0;
  alignment = alignment;
  entry_size = 0;
}

abbrev pub two_sections : ℕ → Result Section
two_sections zero = ok (section 1 6 100 16)
two_sections (suc zero) = ok (section 8 3 50 8)
two_sections (suc (suc i)) = err invalid

abbrev pub two_places : Layout
two_places = record {
  image_size = 4146;
  previous_protection = some 1;
  percpu_next = 2048;
  module_percpu_offset = 0;
  module_percpu_size = 0;
  sections =
      record { base = 0; offset = 0; size = 100; alignment = 16; flags = 6 }
      ∷ record { base = 0; offset = 4096; size = 50; alignment = 8; flags = 3 }
      ∷ [];
}

pub two_laid : layout_sections (2 ^ 12) two_sections 2 2048 ≡ ok two_places
unfolding layout_sections section_offset align_up64 place_percpu same_text
two_laid = refl

pub two-IsModest :
    (i : ℕ) (s : Section) → two_sections i ≡ ok s → is_allocated s.flags ≡ true → IsModest s
two-IsModest zero s e a =
    let at : section 1 6 100 16 ≡ s = cc in
    rw (← at) (record { bits = 4; few = omega arith; power = refl; small = omega arith })
two-IsModest (suc zero) s e a =
    let at : section 8 3 50 8 ≡ s = cc in
    rw (← at) (record { bits = 3; few = omega arith; power = refl; small = omega arith })
two-IsModest (suc (suc i)) s e a = absurd (cc)

pub two_places-IsLaid : IsLaid 4096 2 two_places
two_places-IsLaid =
    layout_sections-IsLaid 12 (omega arith) two_sections two-IsModest 2 2048 (omega arith) two_laid

layout_sections-IsLaid_example : IsLaid 4096 2 two_places
layout_sections-IsLaid_example =
    layout_sections-IsLaid 12 (omega arith) two_sections two-IsModest 2 2048 (omega arith) two_laid

-- The size of the image is not checked for a wrap: after a zero-filled section of almost 2^64 bytes
-- the next one lies behind the end of the image that is allocated.
abbrev huge_sections : ℕ → Result Section
huge_sections zero = ok (section 8 3 (u64_mod - 4096) 1)
huge_sections (suc i) = ok (section 1 3 8192 1)

wraps :
    layout_sections 4096 huge_sections 2 2048
    ≡ ok (record {
      image_size = 4096;
      previous_protection = some 1;
      percpu_next = 2048;
      module_percpu_offset = 0;
      module_percpu_size = 0;
      sections =
          record { base = 0; offset = 0; size = u64_mod - 4096; alignment = 1; flags = 3 }
          ∷ record { base = 0; offset = u64_mod - 4096; size = 8192; alignment = 1; flags = 3 }
          ∷ [];
    })
unfolding layout_sections section_offset align_up64 place_percpu same_text
wraps = refl
