-- ===== src/Elf/Modinfo.antt =====
-- The .modinfo section of src/loader/elf_reader.c: NUL-separated `key=value` entries. The cursor
-- of the code is the rest of the section from it on, so `*cursor < size` is that the rest is not
-- empty. The loops take fuel; running out of it is `fault`, as is a read outside the file.
pub mod Loops
pub mod Roundtrip
mod Tests
use kobox.Prelude.{
  Bool, List, [], drop, if◌then◌else◌, invalid, leb, length, not_found, same_text, suc, take, zero,
  ℕ, ◌&&◌, ◌+◌, ◌==◌, ◌∷◌,
}
use kobox.Elf.Bytes.{Result, ok, err, fault, ◌>>=◌, ◌>>◌, guard, range_fits}
use kobox.Elf.File.{File, Section, elf_section}

-- kb_elf_modinfo_entry_t
pub record Entry : Type 0 where
  pub key : List ℕ
  pub value : List ℕ

-- What next_nul_entry answers: 0, -1, or 1 with the entry and the cursor behind its NUL.
pub data Next : Type 0 where
  finished unterminated : Next
  found : List ℕ → List ℕ → Next

pub skip_nuls : List ℕ → List ℕ
skip_nuls [] = []
skip_nuls (c ∷ cs) = let rest = skip_nuls cs in if c == 0 then rest else c ∷ cs

pub split_nul : List ℕ → Next
split_nul [] = unterminated
split_nul (c ∷ cs) = if c == 0 then found [] cs else elim (split_nul cs) [
  | finished ↦ finished
  | unterminated ↦ unterminated
  | found entry rest ↦ found (c ∷ entry) rest
]

pub next_nul_entry : List ℕ → Next
unfolding skip_nuls split_nul
next_nul_entry rest = elim (skip_nuls rest) [ [] ↦ finished | c ∷ cs ↦ split_nul (c ∷ cs) ]

-- The loop of modinfo_entry_count.
pub count_entries : ℕ → List ℕ → ℕ → Result ℕ
count_entries zero rest count = fault
count_entries (suc fuel) rest count = elim (next_nul_entry rest) [
  | finished ↦ ok count
  | unterminated ↦ err invalid
  | found _ rest' ↦ count_entries fuel rest' (count + 1)
]

-- The parts before and behind the first `=`.
pub split_equals : List ℕ → Result Entry
split_equals [] = err invalid
split_equals (c ∷ cs) =
    if c == b'=' then ok (record { key = []; value = cs }) else elim (split_equals cs) [
      | ok e ↦ ok (record e { key = c ∷ e.key })
      | err e ↦ err e
      | fault ↦ fault
    ]

-- The loop of modinfo_entry; the number is `entry_index - current_index`.
pub find_entry : ℕ → List ℕ → ℕ → Result Entry
find_entry zero rest index = fault
find_entry (suc fuel) rest index = elim (next_nul_entry rest) [
  | finished ↦ err not_found
  | unterminated ↦ err invalid
  | found entry rest' ↦ elim index [ zero ↦ split_equals entry | suc i ↦ find_entry fuel rest' i ]
]

abbrev pub sht_progbits : ℕ
sht_progbits = 1

-- ".modinfo"
abbrev pub modinfo_name : List ℕ
modinfo_name = b'.' ∷ b'm' ∷ b'o' ∷ b'd' ∷ b'i' ∷ b'n' ∷ b'f' ∷ b'o' ∷ []

abbrev pub is_modinfo : Section → Bool
is_modinfo s = s.type == sht_progbits && same_text s.name modinfo_name

-- The `count` bytes from `start` on, if the file has them all.
pub bytes_between : List ℕ → ℕ → ℕ → Result (List ℕ)
bytes_between bytes start count =
    if leb (start + count) (length bytes) then ok (take count (drop start bytes)) else fault

-- The section's bytes, after the checks of both functions and section_bytes.
pub modinfo_bytes : File → ℕ → Result (List ℕ)
unfolding bytes_between
modinfo_bytes f section_index = do
  s ← elf_section f section_index
  guard (is_modinfo s) invalid
  guard (range_fits (length f.bytes) s.offset s.size) invalid
  bytes_between f.bytes s.offset s.size

pub elf_modinfo_entry_count : File → ℕ → Result ℕ
unfolding modinfo_bytes
elf_modinfo_entry_count f section_index = do
  bytes ← modinfo_bytes f section_index
  count_entries (suc (length bytes)) bytes 0

pub elf_modinfo_entry : File → ℕ → ℕ → Result Entry
unfolding modinfo_bytes
elf_modinfo_entry f section_index entry_index = do
  bytes ← modinfo_bytes f section_index
  find_entry (suc (length bytes)) bytes entry_index

-- The loop over the sections from `i` on, with `rounds` left.
modinfo_from : File → ℕ → ℕ → Result ℕ
modinfo_from f zero i = err not_found
modinfo_from f (suc rounds) i =
    let rest = modinfo_from f rounds (i + 1) in
    elf_section f i >>= λ s. if is_modinfo s then ok i else rest

pub elf_modinfo_section : File → Result ℕ
unfolding modinfo_from
elf_modinfo_section f = modinfo_from f f.section_count 0
