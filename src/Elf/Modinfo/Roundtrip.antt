-- ===== src/Elf/Modinfo/Roundtrip.antt =====
-- What the module author wrote into .modinfo is what the reader of src/loader/elf_reader.c finds.
use kobox.Prelude.{
  All, List, [], ap, arith, get_elem?, length, refl, replicate, some, suc, zero, ℕ, ◌++◌, ◌+◌, ◌<◌,
  ◌∙◌, ◌∷◌, ◌≡◌, ◌≢◌, ◌≤◌,
}
use kobox.Elf.Bytes.{ok}
use kobox.Elf.File.{File}
use kobox.Elf.Modinfo.{
  Entry, found, skip_nuls, split_nul, next_nul_entry, count_entries, split_equals, find_entry,
  modinfo_bytes, elf_modinfo_entry_count, elf_modinfo_entry,
}

-- Text without NUL; a key has no `=` either.
abbrev pub IsText : List ℕ → Type 0
IsText = All λ c. c ≢ 0

abbrev pub IsKey : List ℕ → Type 0
IsKey = All λ c. (c ≢ 0) × (c ≢ b'=')

abbrev pub IsEntry : Entry → Type 0
IsEntry e = IsKey e.key × IsText e.value

abbrev pub line : Entry → List ℕ
line e = e.key ++ b'=' ∷ e.value

-- The section's bytes: each entry with its NUL, and any number of NULs for padding before it.
abbrev pub encode : List (ℕ × Entry) → List ℕ
encode [] = []
encode ((padding, e) ∷ es) = replicate padding 0 ++ (line e ++ 0 ∷ encode es)

abbrev pub AreEntries : List (ℕ × Entry) → Type 0
AreEntries = All λ p. IsEntry p.1

IsText-line : (key value : List ℕ) → IsKey key → IsText value → IsText (key ++ b'=' ∷ value)
IsText-line [] value k v = (omega arith, v)
IsText-line (c ∷ key) value k v = (k.0.0, IsText-line key value k.1 v)

split_nul-text : (text rest : List ℕ) → IsText text → split_nul (text ++ 0 ∷ rest) ≡ found text rest
unfolding split_nul
split_nul-text [] rest t = refl
split_nul-text (c ∷ text) rest t = ground (arith, split_nul-text text rest t.1)

skip_nuls-padding : (n : ℕ) (rest : List ℕ) → skip_nuls (replicate n 0 ++ rest) ≡ skip_nuls rest
unfolding skip_nuls
skip_nuls-padding zero rest = refl
skip_nuls-padding (suc n) rest = skip_nuls-padding n rest

skip_nuls-text :
    (text rest : List ℕ) → IsText text → text ≢ [] → skip_nuls (text ++ rest) ≡ text ++ rest
unfolding skip_nuls
skip_nuls-text [] rest t h = absurd (h refl)
skip_nuls-text (c ∷ text) rest t h = ground arith

next-padding :
    (n : ℕ) (rest : List ℕ) → next_nul_entry (replicate n 0 ++ rest) ≡ next_nul_entry rest
unfolding next_nul_entry
next-padding n rest = rw (skip_nuls-padding n rest, next_nul_entry)

next-text :
    (text rest : List ℕ)
    → IsText text
    → text ≢ []
    → next_nul_entry (text ++ 0 ∷ rest) ≡ found text rest
unfolding next_nul_entry
next-text [] rest t h = absurd (h refl)
next-text (c ∷ text) rest t h = ground (arith, split_nul-text (c ∷ text) rest t)

line_ne_nil : (key value : List ℕ) → key ++ b'=' ∷ value ≢ []
line_ne_nil [] value = λ e. cc
line_ne_nil (c ∷ key) value = λ e. cc

-- The scan finds the first entry, and leaves the others.
next-encode :
    (padding : ℕ) (e : Entry) (es : List (ℕ × Entry))
    → IsEntry e
    → next_nul_entry (encode ((padding, e) ∷ es)) ≡ found (line e) (encode es)
next-encode padding e es v =
    next-padding padding (line e ++ 0 ∷ encode es)
    ∙ next-text (line e) (encode es) (IsText-line e.key e.value v.0 v.1) (line_ne_nil e.key e.value)

split_equals-line :
    (key value : List ℕ)
    → IsKey key
    → split_equals (key ++ b'=' ∷ value) ≡ ok (record { key = key; value = value })
unfolding split_equals
split_equals-line [] value k = refl
split_equals-line (c ∷ key) value k = ground (arith, split_equals-line key value k.1)

count_entries-encode :
    (es : List (ℕ × Entry)) (fuel count : ℕ)
    → AreEntries es
    → length es < fuel
    → count_entries fuel (encode es) count ≡ ok (count + length es)
unfolding count_entries
count_entries-encode es zero count v h = absurd (omega arith)
count_entries-encode [] (suc fuel) count v h = unfold next_nul_entry in ap ok (omega arith)
count_entries-encode ((padding, e) ∷ es) (suc fuel) count v h =
    rw (next-encode padding e es v.0, count_entries)
      (count_entries-encode es fuel (count + 1) v.1 (omega arith) ∙ ap ok (omega arith))

find_entry-encode :
    (es : List (ℕ × Entry)) (fuel index : ℕ) {p : ℕ × Entry}
    → AreEntries es
    → length es < fuel
    → get_elem? es index ≡ some p
    → find_entry fuel (encode es) index ≡ ok p.1
unfolding find_entry
find_entry-encode es zero index v h g = absurd (omega arith)
find_entry-encode [] (suc fuel) index v h g = absurd (cc)
find_entry-encode ((padding, e) ∷ es) (suc fuel) zero v h g =
    rw (next-encode padding e es v.0, find_entry)
      (split_equals-line e.key e.value v.0.0 ∙ ground arith)
find_entry-encode ((padding, e) ∷ es) (suc fuel) (suc index) {p} v h g =
    rw (next-encode padding e es v.0, find_entry)
      (find_entry-encode es fuel index {p = p} v.1 (omega arith) g)

length-append_le : (xs ys : List ℕ) → length ys ≤ length (xs ++ ys)
length-append_le [] ys = omega arith
length-append_le (x ∷ xs) ys = let h = length-append_le xs ys in omega arith

length-encode : (es : List (ℕ × Entry)) → length es ≤ length (encode es)
length-encode [] = omega arith
length-encode ((padding, e) ∷ es) =
    let h₁ = length-append_le (replicate padding 0) (line e ++ 0 ∷ encode es) in
    let h₂ = length-append_le (line e) (0 ∷ encode es) in let h₃ = length-encode es in omega arith

-- When a .modinfo section holds the encoding of a list of entries, whose keys have no NUL and no
-- `=`, whose values have no NUL, and which have any number of NULs before them, the entry count is
-- the length of that list.
elf_modinfo_entry_count_all :
    (f : File) (section_index : ℕ) (es : List (ℕ × Entry))
    → AreEntries es
    → modinfo_bytes f section_index ≡ ok (encode es)
    → elf_modinfo_entry_count f section_index ≡ ok (length es)
unfolding elf_modinfo_entry_count
elf_modinfo_entry_count_all f section_index es v h =
    let le = length-encode es in
    rw h
      (count_entries-encode es (suc (length (encode es))) 0 v (omega arith) ∙ ap ok (omega arith))

-- When a .modinfo section holds the encoding of a list of entries, whose keys have no NUL and no
-- `=`, whose values have no NUL, and which have any number of NULs before them, the lookup by an
-- index of that list gives the key and the value that were encoded there.
pub elf_modinfo_entry_at :
    (f : File) (section_index index : ℕ) (es : List (ℕ × Entry)) {p : ℕ × Entry}
    → AreEntries es
    → modinfo_bytes f section_index ≡ ok (encode es)
    → get_elem? es index ≡ some p
    → elf_modinfo_entry f section_index index ≡ ok p.1
unfolding elf_modinfo_entry
elf_modinfo_entry_at f section_index index es {p} v h g =
    let le = length-encode es in
    rw h (find_entry-encode es (suc (length (encode es))) index {p = p} v (omega arith) g)
