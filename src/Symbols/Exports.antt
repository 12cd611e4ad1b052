-- ===== src/Symbols/Exports.antt =====
-- Exporting and withdrawing symbols, of src/loader/symbol_registry.c, as a map from names to
-- addresses.
use kobox.Prelude.{
  All, List, Option-cases, [], ap, arith, false, if◌then◌else◌, inl, inr, no_memory, none,
  same_text_eq, some, success, true, ℕ, ◌&&◌, ◌==◌, ◌↔◌, ◌∷◌, ◌≡◌, ◌≢◌,
}
use kobox.Symbols.{
  Slot, is_empty, symbol_name_matches, first_match, bad_name, lookup_export, fill_first, add_export,
  remove_owner,
}
use kobox.Symbols.Laws.{
  IsTable, matches_empty, first_match_congr, first_match-fill, fill_first-none_iff,
  first_match-clear,
}

module _ (text : ℕ → List ℕ) where
  -- The module that exports the name, or NULL.
  abbrev pub owner_of : List Slot → ℕ → ℕ
  owner_of slots name = elim (first_match text name slots) [ none ↦ 0 | some x ↦ x.owner ]

  first_match-IsSlot :
      (j : ℕ) (xs : List Slot) {x : Slot}
      → IsTable text xs
      → first_match text j xs ≡ some x
      → (x.address ≢ 0) × (x.owner ≢ 0)
  unfolding first_match
  first_match-IsSlot j [] t h = absurd (cc)
  first_match-IsSlot j (y ∷ ys) {x} t h =
      let rest = first_match-IsSlot j ys {x = x} t.2 in
      elim t.0 [ inl free ↦ ground (arith, matches_empty text j) | inr used ↦ ground arith ]

  matches_valid :
      (a j : ℕ)
      → bad_name text a ≡ false
      → symbol_name_matches text a j ≡ true
      → bad_name text j ≡ false
  unfolding bad_name symbol_name_matches is_empty
  matches_valid a j h m =
      let e = same_text_eq (text a) (text j) (ground arith) in ground (arith, ap is_empty e)

  -- In a well-formed registry, after an export that returned KB_OK, the exported name is found at
  -- the new address if it was not found before; a name that was found before keeps its address, and
  -- so does every other name.
  pub lookup-add :
      (slots : List Slot) (name address owner j : ℕ) {slots' : List Slot}
      → IsTable text slots
      → add_export text slots name address owner ≡ (success, slots')
      → lookup_export text slots' j ≡ (
          if symbol_name_matches text name j && lookup_export text slots name == 0
          then address
          else lookup_export text slots j)
  unfolding add_export lookup_export
  lookup-add slots name address owner j {slots'} t h =
      elim (Option-cases (first_match text name slots)) [
        | inr (x, e) ↦
            let used = first_match-IsSlot name slots {x = x} t e in
            ground (arith, first_match_congr text name j slots, matches_valid name j)
        | inl e ↦
            elim (Option-cases
              (fill_first text (record { name = name; address = address; owner = owner }) slots)) [
                | inl e' ↦ ground arith
                | inr (zs, e') ↦
                    let filled =
                      first_match-fill text
                        (record { name = name; address = address; owner = owner }) j slots {ys = zs}
                        e e' in
                    ground (arith, matches_valid name j)
              ]
      ]

  -- In a well-formed registry, an export with a valid name, address and owner returns KB_ERR_NOMEM
  -- exactly when the name has no address yet and no slot is free.
  pub add_export-no_memory_iff :
      (slots : List Slot) (name address owner : ℕ)
      → IsTable text slots
      → bad_name text name ≡ false
      → address ≢ 0
      → owner ≢ 0
      → ((add_export text slots name address owner).0 ≡ no_memory)
        ↔ ((lookup_export text slots name ≡ 0) × All (λ x. x.name ≢ 0) slots)
  unfolding add_export lookup_export
  add_export-no_memory_iff slots name address owner t n a o =
      let free =
        fill_first-none_iff text (record { name = name; address = address; owner = owner }) slots in
      elim (Option-cases (first_match text name slots)) [
        | inr (x, e) ↦ let used = first_match-IsSlot name slots {x = x} t e in ground arith
        | inl e ↦
            elim (Option-cases
              (fill_first text (record { name = name; address = address; owner = owner }) slots)) [
                | inl e' ↦ ground (arith, free)
                | inr (zs, e') ↦ ground (arith, free)
              ]
      ]

  -- In a well-formed registry, when a module is removed, the names that it exported are no longer
  -- found, and all other names keep their addresses.
  pub lookup-remove :
      (slots : List Slot) (owner j : ℕ)
      → IsTable text slots
      → lookup_export text (remove_owner slots owner) j
        ≡ (if owner_of slots j == owner then 0 else lookup_export text slots j)
  unfolding remove_owner lookup_export
  lookup-remove slots owner j t = elim (Option-cases (first_match text j slots)) [
    | inl e ↦ ground (arith, first_match-clear text owner j slots t)
    | inr (x, e) ↦
        let used = first_match-IsSlot j slots {x = x} t e in
        ground (arith, first_match-clear text owner j slots t)
  ]
