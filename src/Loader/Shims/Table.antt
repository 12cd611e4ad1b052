-- ===== src/Loader/Shims/Table.antt =====
-- The hash index stands for the first symbol of each name, and appending a symbol keeps it so.
use kobox.Prelude.{
  Bool-cases, List, Option, Option-cases, [], arith, false, get_or, get_or-set_ne, get_or-set_self,
  inl, inr, length, length-set, none, same_text_eq, same_text_refl, set, some, sym, true, ℕ, ◌++◌,
  ◌+◌, ◌-◌, ◌<◌, ◌==◌, ◌∙◌, ◌∷◌, ◌≡◌, ◌≢◌, ◌≤◌, ◌⊎◌,
}
use kobox.Loader.Shims.{LinuxSymbol, shim_hash_size, slot_of, has_name, slot_matches, find_probe}
use kobox.Loader.Shims.First.{
  first_index, length-append, slot_matches-append, slot_matches-append_length,
  first_index-append_some, first_index-append_none,
}
use kobox.Loader.Shims.Probe.{
  free_slot, free_slot_lem, count_used, count_used-set, find_probe-set_other, find_probe-none,
  find_probe-set_free, find_probe-append,
}

abbrev pub find : List LinuxSymbol → List ℕ → List ℕ → Option ℕ
find c hs name = find_probe c name shim_hash_size (slot_of name) hs

pub record IsTable (c : List LinuxSymbol) (hs : List ℕ) : Type 0 where
  pub size : length hs ≡ shim_hash_size
  pub room : count_used hs ≤ length c
  pub stored : (r : ℕ) → get_or hs r 0 ≤ length c
  pub is_first :
      (r : ℕ) (name : List ℕ)
      → get_or hs r 0 ≢ 0
      → slot_matches c (get_or hs r 0) name ≡ true
      → first_index c name ≡ some (get_or hs r 0 - 1)
  pub complete : (name : List ℕ) → find c hs name ≡ first_index c name

pub has_name_eq :
    (name n₀ : List ℕ) (s : LinuxSymbol) → s.name ≡ some n₀ → has_name name s ≡ true → n₀ ≡ name
unfolding has_name
has_name_eq name n₀ s e h = same_text_eq n₀ name (rw (has_name, e) at h)

has_name_self : (n₀ : List ℕ) (s : LinuxSymbol) → s.name ≡ some n₀ → has_name n₀ s ≡ true
unfolding has_name
has_name_self n₀ s e = rw (has_name, e) (same_text_refl n₀)

pub nameless_has_no_name :
    (name : List ℕ) (s : LinuxSymbol) → s.name ≡ none → has_name name s ≡ true → ⊥
unfolding has_name
nameless_has_no_name name s e h = cc (rw (has_name, e) at h)

module _ (c : List LinuxSymbol) (s : LinuxSymbol) (hs : List ℕ) (t : IsTable c hs) where
  old_first :
      (r : ℕ) (name : List ℕ)
      → get_or hs r 0 ≢ 0
      → slot_matches (c ++ s ∷ []) (get_or hs r 0) name ≡ true
      → first_index c name ≡ some (get_or hs r 0 - 1)
  old_first r name nz h =
      t.is_first r name nz
        (sym (slot_matches-append c s (get_or hs r 0) name (omega (arith, t.stored r))) ∙ h)

  -- A symbol without a name, or with one that is there, leaves the index as it is.
  pub IsTable-skip :
      ((name : List ℕ) → has_name name s ≡ true → first_index c name ≢ none)
      → IsTable (c ++ s ∷ []) hs
  IsTable-skip known = record {
    size = t.size;
    room = omega (arith, t.room, length-append c (s ∷ []));
    stored = λ r. omega (arith, t.stored r, length-append c (s ∷ []));
    is_first = λ r name nz h. first_index-append_some c (s ∷ []) name (old_first r name nz h);
    complete = λ name.
        find_probe-append c name s shim_hash_size (slot_of name) hs t.stored
        ∙ t.complete name
        ∙ same name;
  }
    where
      same : (name : List ℕ) → first_index c name ≡ first_index (c ++ s ∷ []) name
      same name = elim (Option-cases (first_index c name)) [
        | inr (i, e) ↦ rw e (sym (first_index-append_some c (s ∷ []) name e))
        | inl e ↦ elim (Bool-cases (has_name name s)) [
          | inl y ↦ absurd (known name y e)
          | inr n ↦ ground (arith, first_index-append_none c s name e)
        ]
      ]

  module _ (n₀ : List ℕ) (named : s.name ≡ some n₀) (new : first_index c n₀ ≡ none) (q : ℕ)
      (free : free_slot shim_hash_size (slot_of n₀) hs ≡ some q) where
    is_free : (get_or hs q 0 ≡ 0) × (q < shim_hash_size)
    is_free = free_slot_lem shim_hash_size (slot_of n₀) hs free (omega arith)

    abbrev taken : List ℕ
    taken = set hs q (length c + 1)

    slot_cases :
        (r : ℕ) → (get_or taken r 0 ≡ length c + 1) ⊎ ((get_or taken r 0 ≡ get_or hs r 0) × (q ≢ r))
    slot_cases r = elim (Bool-cases (q == r)) [
      | inl e ↦
          let at : q ≡ r = ground arith in
          inl (rw (← at) (get_or-set_self hs q (length c + 1) 0 (omega (arith, t.size, is_free.1))))
      | inr n ↦
          let apart : q ≢ r = ground arith in inr (get_or-set_ne hs (length c + 1) 0 apart, apart)
    ]

    new_first :
        (name : List ℕ) → has_name name s ≡ true → first_index (c ++ s ∷ []) name ≡ some (length c)
    new_first name h =
        let e : n₀ ≡ name = has_name_eq name n₀ s named h in
        let none' : first_index c name ≡ none = rw (← e) new in
        ground (arith, first_index-append_none c s name none')

    taken_first :
        (r : ℕ) (name : List ℕ)
        → get_or taken r 0 ≢ 0
        → slot_matches (c ++ s ∷ []) (get_or taken r 0) name ≡ true
        → first_index (c ++ s ∷ []) name ≡ some (get_or taken r 0 - 1)
    taken_first r name nz h = elim (slot_cases r) [
      | inl e ↦
          let e' : length c + 1 - 1 ≡ length c = omega arith in
          let m : slot_matches (c ++ s ∷ []) (length c + 1) name ≡ true = rw e at h in
          rw (e, e') (new_first name (sym (slot_matches-append_length c s name) ∙ m))
      | inr (e, _) ↦
          let m : slot_matches (c ++ s ∷ []) (get_or hs r 0) name ≡ true = rw e at h in
          let nz' : get_or hs r 0 ≢ 0 = rw e at nz in
          rw e (first_index-append_some c (s ∷ []) name (old_first r name nz' m))
    ]

    taken_complete :
        (name : List ℕ) → find (c ++ s ∷ []) taken name ≡ first_index (c ++ s ∷ []) name
    taken_complete name = elim (Option-cases (first_index c name)) [
      | inr (i, e) ↦
          find_probe-set_other (c ++ s ∷ []) name shim_hash_size (slot_of name) hs q (length c + 1)
            is_free.0 (before name ∙ e)
          ∙ sym (first_index-append_some c (s ∷ []) name e)
      | inl e ↦ elim (Bool-cases (has_name name s)) [
        | inl y ↦
            let at : n₀ ≡ name = has_name_eq name n₀ s named y in
            let e' : length c + 1 - 1 ≡ length c = omega arith in
            let free' : free_slot shim_hash_size (slot_of name) hs ≡ some q = rw at at free in
            rw e' at (
              find_probe-set_free (c ++ s ∷ []) name shim_hash_size (slot_of name) hs (length c + 1)
                (before name ∙ e) free' (omega (arith, t.size, is_free.1)) (omega arith)
                (slot_matches-append_length c s name ∙ y))
            ∙ sym (new_first name y)
        | inr n ↦
            find_probe-none (c ++ s ∷ []) name shim_hash_size (slot_of name) taken (others name e n)
            ∙ ground (arith, first_index-append_none c s name e)
      ]
    ]
      where
        before : (name : List ℕ) → find (c ++ s ∷ []) hs name ≡ first_index c name
        before name =
            find_probe-append c name s shim_hash_size (slot_of name) hs t.stored ∙ t.complete name

        others :
            (name : List ℕ)
            → first_index c name ≡ none
            → has_name name s ≡ false
            → (r : ℕ) → get_or taken r 0 ≢ 0
            → slot_matches (c ++ s ∷ []) (get_or taken r 0) name ≡ false
        others name e n r nz = elim (slot_cases r) [
          | inl at ↦ rw at (slot_matches-append_length c s name ∙ n)
          | inr (at, _) ↦
              let nz' : get_or hs r 0 ≢ 0 = rw at at nz in
              elim (Bool-cases (slot_matches (c ++ s ∷ []) (get_or hs r 0) name)) [
                | inl y ↦ absurd (cc (old_first r name nz' y))
                | inr f ↦ rw at f
              ]
        ]

    pub IsTable-taken : IsTable (c ++ s ∷ []) taken
    IsTable-taken = record {
      size = length-set hs q (length c + 1) ∙ t.size;
      room = omega (arith, t.room, length-append c (s ∷ []), count_used-set hs q (length c + 1));
      stored = λ r. ground (arith, slot_cases r, t.stored r, length-append c (s ∷ []));
      is_first = taken_first;
      complete = taken_complete;
    }
