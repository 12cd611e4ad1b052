-- ===== src/Elf/Modinfo/Loops.antt =====
-- The loops over .modinfo entries of src/loader/elf_reader.c come to an end.
use kobox.Prelude.{
  Bool-cases, List, [], arith, inl, inr, invalid, leb, length, refl, suc, true, zero, ℕ, ◌+◌, ◌<◌,
  ◌==◌, ◌∷◌, ◌≡◌, ◌≤◌, ◌⊎◌,
}
use std.Path.{subst}
use kobox.Elf.Bytes.{IsSafe, IsSafe-ends, returned, refused, range_fits}
use kobox.Elf.File.{File}
use kobox.Elf.File.Headers.{IsOpen, elf_section-IsSafe}
use kobox.Elf.Modinfo.{
  Next, finished, unterminated, found, skip_nuls, split_nul, next_nul_entry, count_entries,
  split_equals, find_entry, bytes_between, modinfo_bytes, is_modinfo, elf_modinfo_entry_count,
  elf_modinfo_entry,
}

length-skip_nuls : (cs : List ℕ) → length (skip_nuls cs) ≤ length cs
unfolding skip_nuls
length-skip_nuls [] = omega arith
length-skip_nuls (c ∷ cs) = ground (arith, length-skip_nuls cs)

-- What is left behind a found entry is shorter.
abbrev IsShorter : ℕ → Next → Type 0
IsShorter n finished = Unit
IsShorter n unterminated = Unit
IsShorter n (found entry rest) = length rest < n

abbrev FoundAt : Next → Type 0
FoundAt r = (entry : List ℕ) × (rest : List ℕ) × (r ≡ found entry rest)

Next-cases : (r : Next) → (r ≡ finished) ⊎ (r ≡ unterminated) ⊎ FoundAt r
Next-cases finished = inl refl
Next-cases unterminated = inr (inl refl)
Next-cases (found entry rest) = inr (inr (entry, rest, refl))

split_nul-IsShorter : (cs : List ℕ) → IsShorter (length cs) (split_nul cs)
unfolding split_nul
split_nul-IsShorter [] = tt
split_nul-IsShorter (c ∷ cs) =
    let h = split_nul-IsShorter cs in
    elim (Bool-cases (c == 0)) [
      | inl z ↦ rw z (omega arith)
      | inr z ↦ rw z (elim (Next-cases (split_nul cs)) [
        | inl e ↦ rw e tt
        | inr (inl e) ↦ rw e tt
        | inr (inr (entry, rest, e)) ↦
            let h' = subst (IsShorter (length cs)) e h in rw e (omega arith)
      ])
    ]

skipped :
    (cs ds : List ℕ)
    → skip_nuls cs ≡ ds
    → next_nul_entry cs ≡ elim ds [ [] ↦ finished | d ∷ ds' ↦ split_nul (d ∷ ds') ]
unfolding next_nul_entry
skipped cs ds h = rw (h, next_nul_entry) refl

next-IsShorter : (cs ds : List ℕ) → skip_nuls cs ≡ ds → IsShorter (length cs) (next_nul_entry cs)
next-IsShorter cs [] h = rw (skipped cs [] h) tt
next-IsShorter cs (d ∷ ds) h =
    let shorter = split_nul-IsShorter (d ∷ ds) in
    let le = subst (λ xs. length xs ≤ length cs) h (length-skip_nuls cs) in
    rw (skipped cs (d ∷ ds) h) (elim (Next-cases (split_nul (d ∷ ds))) [
      | inl e ↦ rw e tt
      | inr (inl e) ↦ rw e tt
      | inr (inr (entry, rest, e)) ↦
          rw e (let lt = subst (IsShorter (length (d ∷ ds))) e shorter in omega arith)
    ])

next_shorter :
    (cs : List ℕ) {entry rest : List ℕ}
    → next_nul_entry cs ≡ found entry rest
    → length rest < length cs
next_shorter cs e = subst (IsShorter (length cs)) e (next-IsShorter cs (skip_nuls cs) refl)

split_equals-IsSafe : (cs : List ℕ) → IsSafe (split_equals cs)
unfolding split_equals
split_equals-IsSafe [] = refused invalid
split_equals-IsSafe (c ∷ cs) = elim (Bool-cases (c == b'=')) [
  | inl z ↦ rw z (returned _)
  | inr z ↦ rw z (elim (IsSafe-ends (split_equals-IsSafe cs)) [
    | inl (e, h) ↦ rw h (returned _)
    | inr (e, h) ↦ rw h (refused _)
  ])
]

count_entries-IsSafe :
    (fuel : ℕ) (cs : List ℕ) (count : ℕ) → length cs < fuel → IsSafe (count_entries fuel cs count)
unfolding count_entries
count_entries-IsSafe zero cs count h = absurd (omega arith)
count_entries-IsSafe (suc fuel) cs count h = elim (Next-cases (next_nul_entry cs)) [
  | inl e ↦ rw (e, count_entries) (returned _)
  | inr (inl e) ↦ rw (e, count_entries) (refused _)
  | inr (inr (entry, rest, e)) ↦
      rw (e, count_entries)
        (count_entries-IsSafe fuel rest (count + 1) (let lt = next_shorter cs e in omega arith))
]

find_entry-IsSafe :
    (fuel : ℕ) (cs : List ℕ) (index : ℕ) → length cs < fuel → IsSafe (find_entry fuel cs index)
unfolding find_entry
find_entry-IsSafe zero cs index h = absurd (omega arith)
find_entry-IsSafe (suc fuel) cs zero h = elim (Next-cases (next_nul_entry cs)) [
  | inl e ↦ rw (e, find_entry) (refused _)
  | inr (inl e) ↦ rw (e, find_entry) (refused _)
  | inr (inr (entry, rest, e)) ↦ rw (e, find_entry) (split_equals-IsSafe entry)
]
find_entry-IsSafe (suc fuel) cs (suc i) h = elim (Next-cases (next_nul_entry cs)) [
  | inl e ↦ rw (e, find_entry) (refused _)
  | inr (inl e) ↦ rw (e, find_entry) (refused _)
  | inr (inr (entry, rest, e)) ↦
      rw (e, find_entry) (find_entry-IsSafe fuel rest i (let lt = next_shorter cs e in omega arith))
]

range_fits_between :
    (bytes : List ℕ) (start count : ℕ)
    → range_fits (length bytes) start count ≡ true
    → leb (start + count) (length bytes) ≡ true
unfolding range_fits
range_fits_between bytes start count h = ground arith

modinfo_bytes-IsSafe : (f : File) (i : ℕ) → IsOpen f → IsSafe (modinfo_bytes f i)
unfolding modinfo_bytes bytes_between
modinfo_bytes-IsSafe f i v = elim (IsSafe-ends (elf_section-IsSafe f i v)) [
  | inr (e, h) ↦ rw h (refused e)
  | inl (s, h) ↦ rw h (elim (Bool-cases (is_modinfo s)) [
    | inr n ↦ rw n (refused _)
    | inl y ↦ rw y (elim (Bool-cases (range_fits (length f.bytes) s.offset s.size)) [
      | inr n ↦ rw n (refused _)
      | inl y' ↦ rw (y', range_fits_between f.bytes s.offset s.size y') (returned _)
    ])
  ])
]

-- On an opened file counting the .modinfo entries of any section comes to an end, with a count or
-- an error: the loop does not outrun its fuel of one round per byte and one more, and no read leaves
-- the file.
pub elf_modinfo_entry_count-IsSafe :
    (f : File) (section_index : ℕ) → IsOpen f → IsSafe (elf_modinfo_entry_count f section_index)
unfolding elf_modinfo_entry_count
elf_modinfo_entry_count-IsSafe f section_index v =
    elim (IsSafe-ends (modinfo_bytes-IsSafe f section_index v)) [
      | inr (e, h) ↦ rw h (refused e)
      | inl (bytes, h) ↦ rw h (count_entries-IsSafe (suc (length bytes)) bytes 0 (omega arith))
    ]

-- On an opened file the lookup of a .modinfo entry comes to an end, with an entry or an error,
-- whatever the indices are.
pub elf_modinfo_entry-IsSafe :
    (f : File) (section_index entry_index : ℕ)
    → IsOpen f
    → IsSafe (elf_modinfo_entry f section_index entry_index)
unfolding elf_modinfo_entry
elf_modinfo_entry-IsSafe f section_index entry_index v =
    elim (IsSafe-ends (modinfo_bytes-IsSafe f section_index v)) [
      | inr (e, h) ↦ rw h (refused e)
      | inl (bytes, h) ↦
          rw h (find_entry-IsSafe (suc (length bytes)) bytes entry_index (omega arith))
    ]
