-- ===== src/Loader/Resolve.antt =====
-- The addresses of symbols, of src/loader/module_loader.c: resolve_symbol and find_symbol_address on
-- a module whose sections are loaded. `shim_address` is shim_symbol_find_address on the table of the
-- kernel symbols, 0 for NULL.
pub mod Found
mod Tests
use kobox.Prelude.{
  Bool, List, Option, add64, false, get_elem?, if◌then◌else◌, invalid, length, ltb, none, not_found,
  same_text, some, suc, unsupported, zero, ℕ, ◌&&◌, ◌+◌, ◌==◌, ◌||◌,
}
use kobox.Elf.Bytes.{Result, ok, err, fault, ◌>>=◌, ◌>>◌, guard}
use kobox.Elf.File.{File, Section, elf_section}
use kobox.Elf.Entries.{Symbol, elf_symbol, elf_symbol_count, is_symbols}
use kobox.Loader.Layout.{Place, percpu_name}

-- The fields of kb_module_t that matter; `section_count` is the length of `sections`.
pub record Module : Type 0 where
  pub elf : File
  pub sections : List Place
  pub module_percpu_offset : ℕ
  pub module_percpu_size : ℕ

-- KB_ELF_SHN_UNDEF
abbrev pub shn_undef : ℕ
shn_undef = 0

-- KB_ELF_SHN_ABS
abbrev pub shn_abs : ℕ
shn_abs = 0xfff1

pub loaded_section_address : List Place → ℕ → ℕ → Result ℕ
loaded_section_address sections index value = elim (get_elem? sections index) [
  | none ↦ err invalid
  | some p ↦ if p.base == 0 || ltb p.size value then err invalid else ok (add64 p.base value)
]

is_named_percpu : Result Section → Bool
is_named_percpu (ok s) = same_text s.name percpu_name
is_named_percpu (err e) = false
is_named_percpu fault = false

pub symbol_is_percpu_offset : Module → Symbol → Bool
unfolding is_named_percpu
symbol_is_percpu_offset m symbol =
    ltb symbol.section_index (length m.sections)
    && is_named_percpu (elf_section m.elf symbol.section_index)

module _ (shim_address : List ℕ → ℕ) (m : Module) where
  -- The rest of resolve_symbol, once the symbol is read.
  pub symbol_address : Symbol → Result ℕ
  unfolding loaded_section_address symbol_is_percpu_offset
  symbol_address symbol =
      if symbol.section_index == shn_undef
      then (if shim_address symbol.name == 0
          then err unsupported
          else ok (shim_address symbol.name))
      else if symbol.section_index == shn_abs
      then ok symbol.value
      else if symbol_is_percpu_offset m symbol
      then (if m.module_percpu_offset == 0 || ltb m.module_percpu_size symbol.value
          then err invalid
          else ok (add64 m.module_percpu_offset symbol.value))
      else loaded_section_address m.sections symbol.section_index symbol.value

  pub resolve_symbol : ℕ → ℕ → Result ℕ
  unfolding symbol_address
  resolve_symbol table index = do symbol ← elf_symbol m.elf table index; symbol_address symbol

  module _ (name : List ℕ) where
    -- The loop over a table's symbols, with the rounds that are left; none if the loop ends.
    pub find_in_table : ℕ → ℕ → ℕ → Result (Option ℕ)
    unfolding resolve_symbol
    find_in_table table zero index = ok none
    find_in_table table (suc n) index = do
      symbol ← elf_symbol m.elf table index
      let rest = find_in_table table n (index + 1)
      if same_text symbol.name name
          then (do address ← resolve_symbol table index; ok (some address))
          else rest

    -- The loop over the sections.
    pub find_in_sections : ℕ → ℕ → Result (Option ℕ)
    unfolding find_in_table
    find_in_sections zero index = ok none
    find_in_sections (suc n) index = do
      s ← elf_section m.elf index
      let rest = find_in_sections n (index + 1)
      if is_symbols s
          then (do
            count ← elf_symbol_count m.elf index
            found ← find_in_table index count 0
            elim found [ some address ↦ ok (some address) | none ↦ rest ])
          else rest

    pub find_symbol_address : Result ℕ
    unfolding find_in_sections
    find_symbol_address = do
      found ← find_in_sections m.elf.section_count 0
      elim found [ some address ↦ ok address | none ↦ err not_found ]
