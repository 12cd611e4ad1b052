-- ===== src/Loader/Modules.antt =====
-- The list of loaded modules of src/loader/module_loader.c, the search of it by address, and the
-- part of destroy_module that concerns the list and the symbol registry: what it frees is left out.
-- A module is its pointer, 0 for NULL, with its sections.
pub mod Owner
mod Tests
use kobox.Prelude.{
  Bool, List, [], add64, false, if◌then◌else◌, leb, ltb, ℕ, ◌&&◌, ◌/=◌, ◌==◌, ◌||◌, ◌∷◌,
}
use kobox.Keyed
use kobox.Symbols.{Slot, remove_owner}
use kobox.Loader.Layout.{Place, is_executable}

pub record LoadedModule : Type 0 where
  pub pointer : ℕ
  pub sections : List Place

pub section_contains : ℕ → Place → Bool
section_contains address p =
    if p.base == 0 || p.size == 0
    then false
    else leb p.base address && ltb address (add64 p.base p.size)

section_contains_code : ℕ → Place → Bool
unfolding section_contains
section_contains_code address p = is_executable p.flags && section_contains address p

pub any_section : (Place → Bool) → List Place → Bool
any_section test [] = false
any_section test (p ∷ ps) = test p || any_section test ps

pub module_contains_address : LoadedModule → ℕ → Bool
unfolding any_section section_contains
module_contains_address m address =
    address /= 0 && any_section (section_contains address) m.sections

pub module_contains_executable_address : LoadedModule → ℕ → Bool
unfolding any_section section_contains_code
module_contains_executable_address m address =
    address /= 0 && any_section (section_contains_code address) m.sections

pub module_for_address : List LoadedModule → ℕ → ℕ
unfolding module_contains_address
module_for_address [] address = 0
module_for_address (m ∷ ms) address =
    if module_contains_address m address then m.pointer else module_for_address ms address

pub module_is_executable_address : List LoadedModule → ℕ → Bool
unfolding module_contains_executable_address
module_is_executable_address [] address = false
module_is_executable_address (m ∷ ms) address =
    module_contains_executable_address m address || module_is_executable_address ms address

pub register_loaded_module : LoadedModule → List LoadedModule → List LoadedModule
register_loaded_module m ms = if m.pointer == 0 then ms else m ∷ ms

abbrev pub module_key : LoadedModule → ℕ
module_key m = m.pointer

pub unregister_loaded_module : ℕ → List LoadedModule → List LoadedModule
unregister_loaded_module pointer ms = Keyed.remove module_key pointer ms

-- The loaded modules and the registry of their exports.
pub destroy_module : ℕ → List LoadedModule × List Slot → List LoadedModule × List Slot
unfolding unregister_loaded_module
destroy_module pointer (ms, slots) =
    if pointer == 0
    then (ms, slots)
    else (unregister_loaded_module pointer ms, remove_owner slots pointer)
