-- ===== src/Loader/Modules/Owner.antt =====
-- Which module an address belongs to, when modules come and go.
use kobox.Prelude.{
  ==_ne, All, Bool-cases, List, [], ap, arith, false, if◌then◌else◌, inl, inr, none, refl, some,
  true, ℕ, ◌==◌, ◌∷◌, ◌≡◌, ◌≢◌,
}
use kobox.Keyed
use kobox.Keyed.{IsUnique}
use kobox.Symbols.{Slot, lookup_export}
use kobox.Symbols.Laws.{IsTable}
use kobox.Symbols.Exports.{owner_of, lookup-remove}
use kobox.Loader.Modules.{
  LoadedModule, module_key, module_contains_address, module_for_address, unregister_loaded_module,
  destroy_module,
}

-- Two modules do not share the address.
abbrev pub OwnedOnce : ℕ → LoadedModule → List LoadedModule → Type 0
OwnedOnce address m ms =
    All
      (λ x.
        module_contains_address x address ≡ true
        → module_contains_address m address ≡ true
        → x.pointer ≡ m.pointer)
      ms

module _ (m : LoadedModule) (address : ℕ) where
  unowned :
      (ms : List LoadedModule)
      → module_contains_address m address ≡ true
      → Keyed.find module_key m.pointer ms ≡ none
      → OwnedOnce address m ms
      → module_for_address ms address ≡ 0
  unfolding module_for_address Keyed.find
  unowned [] c f o = refl
  unowned (x ∷ ms) c f (o, os) = ground (arith, o, unowned ms c)

  remove_lem :
      (ms : List LoadedModule)
      → Keyed.find module_key m.pointer ms ≡ some m
      → IsUnique module_key ms
      → OwnedOnce address m ms
      → module_for_address (Keyed.remove module_key m.pointer ms) address
        ≡ (if module_contains_address m address then 0 else module_for_address ms address)
  unfolding module_for_address Keyed.find Keyed.remove
  remove_lem [] f u o = absurd (cc)
  remove_lem (x ∷ ms) f u (o, os) = elim (Bool-cases (x.pointer == m.pointer)) [
    | inl e ↦
        let key : x.pointer ≡ m.pointer = ground arith in
        let same : x ≡ m = ground (arith, e) in
        let gone : Keyed.find module_key m.pointer ms ≡ none = rw key at u.0 in
        ground (arith, e, gone, unowned ms, ap (λ y. module_contains_address y address) same)
    | inr e ↦ ground (arith, o, remove_lem ms)
  ]

module _ (text : ℕ → List ℕ) (ms : List LoadedModule) (slots : List Slot) (m : LoadedModule)
    (address name : ℕ) where
  -- When a loaded module is destroyed, the addresses in its sections belong to no module and the
  -- names that it exported are no longer found; every other address keeps its module and every
  -- other name its address. The modules have different pointers, no other one holds the address,
  -- and the registry is well-formed.
  pub destroy_module_lem :
      m.pointer ≢ 0
      → Keyed.find module_key m.pointer ms ≡ some m
      → IsUnique module_key ms
      → OwnedOnce address m ms
      → IsTable text slots
      → (module_for_address (destroy_module m.pointer (ms, slots)).0 address
          ≡ (if module_contains_address m address then 0 else module_for_address ms address))
        × (lookup_export text (destroy_module m.pointer (ms, slots)).1 name
            ≡ (if owner_of text slots name == m.pointer then 0 else lookup_export text slots name))
  unfolding destroy_module unregister_loaded_module
  destroy_module_lem n f u o t =
      let nonzero : (m.pointer == 0) ≡ false = ==_ne m.pointer 0 n in
      rw (destroy_module, nonzero)
        (remove_lem m address ms f u o, lookup-remove text slots m.pointer name t)
