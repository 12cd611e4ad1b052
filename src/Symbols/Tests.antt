-- ===== src/Symbols/Tests.antt =====
-- A registry of three slots, with the names at 5000 ("a"), 6000 ("b") and 7000 ("a" again).
use kobox.Prelude.{
  All, List, [], arith, if◌then◌else◌, inl, inr, no_memory, refl, replicate, same_text, success, ℕ,
  ◌==◌, ◌↔◌, ◌∷◌, ◌≡◌, ◌≢◌,
}
use kobox.Symbols.{
  Slot, empty_slot, is_empty, symbol_max, symbol_name_matches, first_match, bad_name, lookup_export,
  fill_first, add_export, remove_owner,
}
use kobox.Symbols.Laws.{IsTable}
use kobox.Symbols.Exports.{lookup-add, add_export-no_memory_iff}
use kobox.Symbols.Reach.{started, added, removed, IsRegistry, Reach-IsRegistry}

abbrev pub text : ℕ → List ℕ
text p = if p == 6000 then b'b' ∷ [] else b'a' ∷ []

abbrev first_slots : List Slot
first_slots = record { name = 5000; address = 16; owner = 1 } ∷ empty_slot ∷ []

abbrev pub second_slots : List Slot
second_slots =
    record { name = 5000; address = 16; owner = 1 }
    ∷ record { name = 6000; address = 32; owner = 2 }
    ∷ []

first-IsTable : IsTable text first_slots
unfolding bad_name is_empty first_match symbol_name_matches same_text
first-IsTable =
    (inr (refl, omega arith, omega arith), (λ z. refl), (inl (refl, refl), (λ z. refl), tt))

pub second-IsTable : IsTable text second_slots
unfolding bad_name is_empty first_match symbol_name_matches same_text
second-IsTable = (
  inr (refl, omega arith, omega arith),
  (λ z. refl),
  (inr (refl, omega arith, omega arith), (λ z. refl), tt),
)

added_second : add_export text first_slots 6000 32 2 ≡ (success, second_slots)
unfolding add_export bad_name is_empty first_match fill_first symbol_name_matches same_text
added_second = refl

lookup-add_example : lookup_export text second_slots 7000 ≡ 16
unfolding lookup_export bad_name is_empty first_match symbol_name_matches same_text
lookup-add_example = lookup-add text first_slots 6000 32 2 7000 first-IsTable added_second

add_export-no_memory_iff_example :
    ((add_export text second_slots 6000 8 9).0 ≡ no_memory)
    ↔ ((lookup_export text second_slots 6000 ≡ 0) × All (λ x. x.name ≢ 0) second_slots)
unfolding bad_name is_empty
add_export-no_memory_iff_example =
    add_export-no_memory_iff text second_slots 6000 8 9 second-IsTable refl (omega arith)
      (omega arith)

Reach-IsRegistry_example :
    IsRegistry text (remove_owner (add_export text (replicate symbol_max empty_slot) 5000 16 1).1 1)
Reach-IsRegistry_example = Reach-IsRegistry text (removed 1 (added 5000 16 1 started))
