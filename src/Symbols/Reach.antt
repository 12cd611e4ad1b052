-- ===== src/Symbols/Reach.antt =====
-- The registry of src/loader/symbol_registry.c in every state that loading and unloading modules
-- reach. The texts stay what they are: an exporting module's memory is freed after its removal.
use kobox.Prelude.{
  Bool-cases, List, Option-cases, [], arith, inl, inr, length, length-replicate, none, refl,
  replicate, same_text_eq, same_text_refl, some, suc, true, zero, ℕ, ◌==◌, ◌||◌, ◌∙◌, ◌∷◌, ◌≡◌,
}
use kobox.Symbols.{
  Slot, empty_slot, symbol_max, symbol_name_matches, first_match, bad_name, fill_first, add_export,
  clear_owned, remove_owner,
}
use kobox.Symbols.Laws.{
  IsSlot, IsTable, matches_empty, first_match-fill, length-fill_first, first_match-clear-none,
}

pub data Reach (text : ℕ → List ℕ) : List Slot → Type 0 where
  started : Reach text (replicate symbol_max empty_slot)
  added :
      {slots : List Slot} (name address owner : ℕ)
      → Reach text slots
      → Reach text (add_export text slots name address owner).1
  removed :
      {slots : List Slot} (owner : ℕ) → Reach text slots → Reach text (remove_owner slots owner)

module _ (text : ℕ → List ℕ) where
  IsTable-replicate : (n : ℕ) → IsTable text (replicate n empty_slot)
  IsTable-replicate zero = tt
  IsTable-replicate (suc n) = (inl (refl, refl), (λ z. absurd (z refl)), IsTable-replicate n)

  matches_back :
      (a b : ℕ) → symbol_name_matches text a b ≡ true → symbol_name_matches text b a ≡ true
  unfolding symbol_name_matches
  matches_back a b h = ground (arith, same_text_eq (text a) (text b), same_text_refl (text b))

  IsTable-fill :
      (y : Slot) (xs : List Slot) {ys : List Slot}
      → IsSlot text y
      → IsTable text xs
      → first_match text y.name xs ≡ none
      → fill_first text y xs ≡ some ys
      → IsTable text ys
  unfolding fill_first first_match
  IsTable-fill y [] v t n h = absurd (cc)
  IsTable-fill y (x ∷ xs) {ys} v t n h = elim (Bool-cases (x.name == 0)) [
    | inl free ↦
        let e : ys ≡ y ∷ xs = ground arith in
        rw e (v, (λ z. ground (arith, matches_empty text y.name)), t.2)
    | inr used ↦ elim (Option-cases (fill_first text y xs)) [
      | inl e ↦ absurd (ground arith)
      | inr (zs, e) ↦
          let e' : ys ≡ x ∷ zs = ground arith in
          let n' : first_match text y.name xs ≡ none = ground arith in
          let filled = first_match-fill text y x.name xs {ys = zs} n' e in
          rw e' (
            t.0,
            (λ z. ground (arith, t.1 z, matches_back y.name x.name)),
            IsTable-fill y xs {ys = zs} v t.2 n' e,
          )
    ]
  ]

  IsTable-clear :
      (owner : ℕ) (xs : List Slot) → IsTable text xs → IsTable text (clear_owned owner xs)
  unfolding clear_owned
  IsTable-clear owner [] t = tt
  IsTable-clear owner (x ∷ xs) t =
      let rest = IsTable-clear owner xs t.2 in
      elim (Bool-cases (x.owner == owner)) [
        | inl e ↦ rw e (inl (refl, refl), (λ z. absurd (z refl)), rest)
        | inr e ↦ rw e (t.0, (λ z. first_match-clear-none text owner x.name xs (t.1 z)), rest)
      ]

  length-clear : (owner : ℕ) (xs : List Slot) → length (clear_owned owner xs) ≡ length xs
  unfolding clear_owned
  length-clear owner [] = refl
  length-clear owner (x ∷ xs) = ground (arith, length-clear owner xs)

  abbrev pub IsRegistry : List Slot → Type 0
  IsRegistry slots = IsTable text slots × (length slots ≡ symbol_max)

  IsRegistry-add :
      (slots : List Slot) (name address owner : ℕ)
      → IsRegistry slots
      → IsRegistry (add_export text slots name address owner).1
  unfolding add_export
  IsRegistry-add slots name address owner v = elim (Option-cases (first_match text name slots)) [
    | inr (x, e) ↦ ground arith
    | inl e ↦
        elim (Option-cases
          (fill_first text (record { name = name; address = address; owner = owner }) slots)) [
            | inl e' ↦ ground arith
            | inr (zs, e') ↦ elim (Bool-cases (bad_name text name || address == 0 || owner == 0)) [
              | inl bad ↦ rw bad v
              | inr good ↦
                  rw (good, e, e')
                    (
                      IsTable-fill (record { name = name; address = address; owner = owner }) slots
                          {ys = zs} (inr (ground arith, ground arith, ground arith)) v.0 e e',
                      length-fill_first text _ slots e' ∙ v.1,
                    )
            ]
          ]
  ]

  IsRegistry-remove :
      (slots : List Slot) (owner : ℕ) → IsRegistry slots → IsRegistry (remove_owner slots owner)
  unfolding remove_owner
  IsRegistry-remove slots owner v = elim (Bool-cases (owner == 0)) [
    | inl e ↦ rw e v
    | inr e ↦ rw e (IsTable-clear owner slots v.0, length-clear owner slots ∙ v.1)
  ]

  -- In every state that exports and removals reach from the cleared array, in any order, the array
  -- has its 4096 slots, each slot is free or a whole export with a valid name, an address and an
  -- owner, and no two slots export one name.
  pub Reach-IsRegistry : {slots : List Slot} → Reach text slots → IsRegistry slots
  Reach-IsRegistry started = (IsTable-replicate symbol_max, length-replicate symbol_max empty_slot)
  Reach-IsRegistry (added {slots = slots} name address owner r) =
      IsRegistry-add slots name address owner (Reach-IsRegistry r)
  Reach-IsRegistry (removed {slots = slots} owner r) =
      IsRegistry-remove slots owner (Reach-IsRegistry r)
