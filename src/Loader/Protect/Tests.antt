-- ===== src/Loader/Protect/Tests.antt =====
-- A text section in the first page and a data section in the second, at 65536.
use kobox.Prelude.{
  List, [], arith, length-replicate, refl, replicate, same_text, some, true, zero, ◌++◌, ◌+◌, ◌^◌,
  ◌∷◌, ◌≡◌,
}
use kobox.Elf.Bytes.{ok, range_fits}
use kobox.Loader.Layout.{Place, gs_size, align_up64}
use kobox.Loader.Layout.Tests.{two_sections, two_places, two_laid, two-IsModest}
use kobox.Loader.Copy.{Image, overwrite, copy_sections}
use kobox.Loader.Copy.Loaded.{zeroed_image}
use kobox.Loader.Protect.{Call, page_floor, native_protection, finalize_section_protections}
use kobox.Loader.Protect.Access.{access_at}
use kobox.Loader.Protect.Loaded.{finalize_section_protections-copy_sections}

abbrev copied : List Place
copied =
    record { base = 65536; offset = 0; size = 100; alignment = 16; flags = 6 }
    ∷ record { base = 69632; offset = 4096; size = 50; alignment = 8; flags = 3 }
    ∷ []

abbrev calls : List Call
calls =
    record { start = 270336; size = 32768; access = 3 }
    ∷ record { start = 73728; size = 196608; access = 5 }
    ∷ record { start = 69632; size = 4096; access = 3 }
    ∷ record { start = 65536; size = 4096; access = 5 }
    ∷ record { start = 65536; size = 237568; access = 1 }
    ∷ []

sealed : finalize_section_protections (λ _. true) (2 ^ 12) 65536 237568 8192 copied ≡ ok calls
unfolding finalize_section_protections page_floor align_up64
sealed = refl

abbrev image : Image
image = record {
  bytes = replicate 100 7 ++ replicate 237468 0;
  gs = replicate gs_size 0;
  sections = copied;
}

copies :
    copy_sections 65536
      (replicate 200 7)
      0
      0
      two_sections
      2
      0
      (zeroed_image 237568 (replicate gs_size 0) two_places)
    ≡ ok image
unfolding copy_sections overwrite range_fits same_text
copies = refl

finalize_section_protections-copy_sections_example :
    access_at (65536 + (4096 + 7)) calls ≡ some (native_protection 1)
finalize_section_protections-copy_sections_example =
    finalize_section_protections-copy_sections (λ _. true) 12 2 2048 two_sections 65536 237568 8192
      (replicate 200 7) (replicate gs_size 0) two_places image (omega arith) (omega arith)
      two-IsModest (λ e. absurd (omega arith)) (omega arith) (omega arith)
      (length-replicate gs_size zero) two_laid copies sealed 1 7 refl (omega arith)
