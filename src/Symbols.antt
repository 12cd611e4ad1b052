-- ===== src/Symbols.antt =====
-- src/loader/symbol_registry.c: the symbols that loaded modules export to each other. The registry
-- is a fixed array of slots, free where the name is NULL; it keeps name pointers, not texts. `text`
-- stands for the C string that an address holds. Names, addresses and owners are pointers.
pub mod Laws
pub mod Exports
pub mod Reach
pub mod Tests
use kobox.Prelude.{
  Bool, List, Option, Status, [], false, if◌then◌else◌, invalid, leb, ltb, no_memory, none, not,
  same_text, some, success, true, u64_mod, ℕ, ◌&&◌, ◌-◌, ◌==◌, ◌||◌, ◌∷◌,
}

abbrev pub symbol_max : ℕ
symbol_max = 4096

-- kb_loader_exported_symbol_t
pub record Slot : Type 0 where
  pub name : ℕ
  pub address : ℕ
  pub owner : ℕ

abbrev pub empty_slot : Slot
empty_slot = record { name = 0; address = 0; owner = 0 }

abbrev pub symbol_pointer_is_valid : ℕ → Bool
symbol_pointer_is_valid p = leb 4096 p && ltb p (u64_mod - 1 - 4095)

pub is_empty : List ℕ → Bool
is_empty [] = true
is_empty (_ ∷ _) = false

module _ (text : ℕ → List ℕ) where
  pub symbol_name_matches : ℕ → ℕ → Bool
  symbol_name_matches a b =
      if not (symbol_pointer_is_valid a) || not (symbol_pointer_is_valid b)
      then false
      else same_text (text a) (text b)

  -- The first loop of the lookup and of the addition.
  pub first_match : ℕ → List Slot → Option Slot
  first_match name [] = none
  first_match name (x ∷ xs) =
      if symbol_name_matches x.name name then some x else first_match name xs

  pub bad_name : ℕ → Bool
  bad_name name = not (symbol_pointer_is_valid name) || is_empty (text name)

  -- 0 is NULL.
  pub lookup_export : List Slot → ℕ → ℕ
  lookup_export slots name =
      if bad_name name then 0 else elim (first_match name slots) [ none ↦ 0 | some x ↦ x.address ]

  -- The second loop of the addition.
  pub fill_first : Slot → List Slot → Option (List Slot)
  fill_first y [] = none
  fill_first y (x ∷ xs) =
      let rest = fill_first y xs in
      if x.name == 0 then some (y ∷ xs) else elim rest [ none ↦ none | some ys ↦ some (x ∷ ys) ]

  pub add_export : List Slot → ℕ → ℕ → ℕ → Status × List Slot
  add_export slots name address owner =
      if bad_name name || address == 0 || owner == 0
      then (invalid, slots)
      else elim (first_match name slots) [
        | some _ ↦ (success, slots)
        | none ↦
            elim (fill_first (record { name = name; address = address; owner = owner }) slots) [
              | some slots' ↦ (success, slots')
              | none ↦ (no_memory, slots)
            ]
      ]

pub clear_owned : ℕ → List Slot → List Slot
clear_owned owner [] = []
clear_owned owner (x ∷ xs) =
    let rest = clear_owned owner xs in if x.owner == owner then empty_slot ∷ rest else x ∷ rest

pub remove_owner : List Slot → ℕ → List Slot
remove_owner slots owner = if owner == 0 then slots else clear_owned owner slots
