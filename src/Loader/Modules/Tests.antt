-- ===== src/Loader/Modules/Tests.antt =====
-- Two modules with a code section each; the second has exported a name.
use kobox.Prelude.{List, [], arith, if◌then◌else◌, refl, ℕ, ◌==◌, ◌∷◌, ◌≡◌}
use kobox.Keyed
use kobox.Symbols.{lookup_export}
use kobox.Symbols.Exports.{owner_of}
use kobox.Symbols.Tests.{text, second_slots, second-IsTable}
use kobox.Loader.Layout.{Place}
use kobox.Loader.Modules.{LoadedModule, module_contains_address, module_for_address, destroy_module}
use kobox.Loader.Modules.Owner.{destroy_module_lem}

abbrev code : ℕ → List Place
code base = record { base = base; offset = 0; size = 100; alignment = 16; flags = 6 } ∷ []

abbrev first_module : LoadedModule
first_module = record { pointer = 1; sections = code 65536 }

abbrev second_module : LoadedModule
second_module = record { pointer = 2; sections = code 131072 }

abbrev modules : List LoadedModule
modules = first_module ∷ second_module ∷ []

owner_before : module_for_address modules 131080 ≡ 2
unfolding module_for_address
owner_before = refl

destroy_module_lem_example :
    (module_for_address (destroy_module 2 (modules, second_slots)).0 131080 ≡ (
      if module_contains_address second_module 131080
      then 0
      else module_for_address modules 131080))
    × (lookup_export text (destroy_module 2 (modules, second_slots)).1 6000 ≡ (
        if owner_of text second_slots 6000 == 2 then 0 else lookup_export text second_slots 6000))
unfolding module_contains_address Keyed.find
destroy_module_lem_example =
    destroy_module_lem text modules second_slots second_module 131080 6000 (omega arith) refl
      (refl, (refl, tt)) (λ a b. absurd (cc a), (λ a b. refl, tt)) second-IsTable
