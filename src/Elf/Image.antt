-- ===== src/Elf/Image.antt =====
-- The parts of the object files that the tests read: the file header and section headers.
use kobox.Prelude.{List, [], replicate, suc, zero, ℕ, ◌%◌, ◌++◌, ◌/◌, ◌∷◌}

-- `n` in `width` little-endian bytes
abbrev pub little : ℕ → ℕ → List ℕ
little zero n = []
little (suc width) n = n % 256 ∷ little width (n / 256)

abbrev pub header : List ℕ
header =
    0x7f ∷ b'E' ∷ b'L' ∷ b'F' ∷ 2 ∷ 1 ∷ 1 ∷ replicate 9 0
    ++ (little 2 1
        ++ (little 2 62
            ++ (little 4 1
                ++ (little 8 0
                    ++ (little 8 0
                        ++ (little 8 64
                            ++ (little 4 0
                                ++ (little 2 64
                                    ++ (little 2 0
                                        ++ (little 2 0
                                            ++ (little 2 64 ++ (little 2 3 ++ little 2 1))))))))))))

abbrev pub section_header : ℕ → ℕ → ℕ → ℕ → ℕ → ℕ → ℕ → List ℕ
section_header name type offset size link info entry_size =
    little 4 name
    ++ (little 4 type
        ++ (little 8 0
            ++ (little 8 0
                ++ (little 8 offset
                    ++ (little 8 size
                        ++ (little 4 link
                            ++ (little 4 info ++ (little 8 0 ++ little 8 entry_size))))))))
