-- ===== src/Symbols/Laws.antt =====
-- The registry of src/loader/symbol_registry.c is a map from texts to addresses.
use kobox.Prelude.{
  All, Bool-cases, List, Option-cases, [], arith, false, if◌then◌else◌, inl, inr, length, none,
  refl, same_text_eq, same_text_refl, some, true, ℕ, ◌==◌, ◌↔◌, ◌∷◌, ◌≡◌, ◌≢◌, ◌⊎◌,
}
use kobox.Symbols.{Slot, symbol_name_matches, first_match, bad_name, fill_first, clear_owned}

module _ (text : ℕ → List ℕ) where
  -- A used slot is a whole export; a free slot is cleared.
  abbrev pub IsSlot : Slot → Type 0
  IsSlot x =
      ((x.name ≡ 0) × (x.owner ≡ 0))
      ⊎ ((bad_name text x.name ≡ false) × (x.address ≢ 0) × (x.owner ≢ 0))

  -- A well-formed registry: no two slots export one text.
  abbrev pub IsTable : List Slot → Type 0
  IsTable [] = Unit
  IsTable (x ∷ xs) = IsSlot x × (x.name ≢ 0 → first_match text x.name xs ≡ none) × IsTable xs

  -- The names that are valid pointers to a text other than the empty one are compared by the text.
  pub matches_iff :
      (a b : ℕ)
      → bad_name text a ≡ false
      → bad_name text b ≡ false
      → (symbol_name_matches text a b ≡ true) ↔ (text a ≡ text b)
  unfolding bad_name symbol_name_matches
  matches_iff a b h k = ground (arith, same_text_refl (text a), same_text_eq (text a) (text b))

  pub matches_empty : (b : ℕ) → symbol_name_matches text 0 b ≡ false
  unfolding symbol_name_matches
  matches_empty b = ground arith

  pub matches_congr :
      (a b c : ℕ)
      → symbol_name_matches text a b ≡ true
      → symbol_name_matches text c a ≡ symbol_name_matches text c b
  unfolding symbol_name_matches
  matches_congr a b c h = ground (arith, same_text_eq (text a) (text b))

  pub first_match_congr :
      (a b : ℕ) (xs : List Slot)
      → symbol_name_matches text a b ≡ true
      → first_match text a xs ≡ first_match text b xs
  unfolding first_match
  first_match_congr a b [] h = refl
  first_match_congr a b (x ∷ xs) h =
      rw (matches_congr a b x.name h, first_match_congr a b xs h) refl

  -- What a filled slot changes for a search.
  pub first_match-fill :
      (y : Slot) (j : ℕ) (xs : List Slot) {ys : List Slot}
      → first_match text y.name xs ≡ none
      → fill_first text y xs ≡ some ys
      → first_match text j ys
        ≡ (if symbol_name_matches text y.name j then some y else first_match text j xs)
  unfolding first_match fill_first
  first_match-fill y j [] n h = absurd (cc)
  first_match-fill y j (x ∷ xs) {ys} n h = elim (Option-cases (fill_first text y xs)) [
    | inl e ↦ ground (arith, matches_empty j)
    | inr (zs, e) ↦
        let rest = first_match-fill y j xs {ys = zs} in
        ground (arith, matches_empty j, matches_congr y.name j x.name, rest)
  ]

  pub fill_first-none_iff :
      (y : Slot) (xs : List Slot) → (fill_first text y xs ≡ none) ↔ All (λ x. x.name ≢ 0) xs
  unfolding fill_first
  fill_first-none_iff y [] = ground arith
  fill_first-none_iff y (x ∷ xs) = elim (Option-cases (fill_first text y xs)) [
    | inl e ↦ ground (arith, fill_first-none_iff y xs)
    | inr (zs, e) ↦ ground (arith, fill_first-none_iff y xs)
  ]

  pub length-fill_first :
      (y : Slot) (xs : List Slot) {ys : List Slot}
      → fill_first text y xs ≡ some ys
      → length ys ≡ length xs
  unfolding fill_first
  length-fill_first y [] h = absurd (cc)
  length-fill_first y (x ∷ xs) {ys} h = elim (Option-cases (fill_first text y xs)) [
    | inl e ↦ ground arith
    | inr (zs, e) ↦ let rest = length-fill_first y xs {ys = zs} e in ground arith
  ]

  pub first_match-clear-none :
      (owner j : ℕ) (xs : List Slot)
      → first_match text j xs ≡ none
      → first_match text j (clear_owned owner xs) ≡ none
  unfolding first_match clear_owned
  first_match-clear-none owner j [] h = refl
  first_match-clear-none owner j (x ∷ xs) h =
      ground (arith, matches_empty j, first_match-clear-none owner j xs)

  -- Removing an owner takes its exports out of every search, and no others.
  pub first_match-clear :
      (owner j : ℕ) (xs : List Slot)
      → IsTable xs
      → first_match text j (clear_owned owner xs) ≡ elim (first_match text j xs) [
        | none ↦ none
        | some x ↦ if x.owner == owner then none else some x
      ]
  unfolding first_match clear_owned
  first_match-clear owner j [] t = refl
  first_match-clear owner j (x ∷ xs) t =
      let rest = first_match-clear owner j xs t.2 in
      elim (Bool-cases (symbol_name_matches text x.name j)) [
        | inr miss ↦ ground (arith, matches_empty j, rest)
        | inl hit ↦
            let unique = t.1 (λ z. absurd (ground (arith, matches_empty j))) in
            let same = first_match_congr x.name j xs hit in
            ground (arith, matches_empty j, first_match-clear-none owner j xs)
      ]
