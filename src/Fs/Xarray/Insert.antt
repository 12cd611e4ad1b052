-- ===== src/Fs/Xarray/Insert.antt =====
-- xa_insert of src/linux_subsystem/fs/fs.c as a change of the map.
use kobox.Prelude.{
  ==_iff, Bool, Bool-cases, List, Option-cases, [], ap, arith, false, inl, inr, neg, none, pos,
  refl, some, sym, ℕ, ℤ, ◌&&◌, ◌==◌, ◌||◌, ◌∙◌, ◌∷◌, ◌≡◌, ◌≢◌, ◌⊎◌,
}
use std.Path.{subst}
use kobox.Keyed
use kobox.Keyed.{IsUnique}
use kobox.Fs.Xarray.{
  Entry, Xarrays, record_key, set_entries, insert_entry, record_for, entries_of, xa_insert,
}
use kobox.Fs.Xarray.Sorted.{
  at_index-insert, insert_entry-none_iff, insert_entry-absent, insert_entry-IsSorted,
}
use kobox.Fs.Xarray.View.{
  Map, view, update, IsValid, entries_of-set, set_entries-IsValid, view-same, IsValid-same,
  view-none,
}

-- What xa_insert promises of its status and of the map.
abbrev pub Inserts : Bool → Bool → ℕ → ℕ → ℕ → Map → ℤ → Map → Type 0
Inserts got_record got_entry x i value m status m' =
    ((status ≡ pos 0)
      × (x ≢ 0)
      × (value ≢ 0)
      × (m x i ≡ none)
      × ((y j : ℕ) → m' y j ≡ update m x i (some value) y j))
    ⊎ (((y j : ℕ) → m' y j ≡ m y j)
        × (((status ≡ neg 22) × ((x ≡ 0) ⊎ (value ≡ 0)))
            ⊎ ((status ≡ neg 16) × (m x i ≢ none))
            ⊎ ((status ≡ neg 12) × ((got_record && got_entry) ≡ false))))

entries_of-new :
    (x y : ℕ) (s : Xarrays)
    → Keyed.find record_key x s.records ≡ none
    → entries_of y (record s { records = record { xarray = x; entries = [] } ∷ s.records })
      ≡ entries_of y s
unfolding entries_of Keyed.find
entries_of-new x y s e = elim (Bool-cases (x == y)) [
  | inr ne ↦ rw (entries_of, Keyed.find, ne) refl
  | inl eq ↦
      let missing = subst (λ z. Keyed.find record_key z s.records ≡ none) ((==_iff x y).0 eq) e in
      rw (entries_of, Keyed.find, eq, missing) refl
]

-- What the search for a record, or the making of one, leaves.
record_for-made :
    (got_record : Bool) (x y : ℕ) (s : Xarrays) {es : List Entry} {s' : Xarrays}
    → IsUnique record_key s.records
    → record_for got_record x s ≡ some (es, s')
    → (es ≡ entries_of x s)
      × (entries_of y s' ≡ entries_of y s)
      × (Keyed.find record_key x s'.records ≢ none)
      × IsUnique record_key s'.records
unfolding record_for entries_of Keyed.find
record_for-made got_record x y s {es} {s'} u h =
    elim (Option-cases (Keyed.find record_key x s.records)) [
      | inr (r, e) ↦ ground arith
      | inl e ↦ elim (Bool-cases got_record) [
        | inl g ↦
            let none_yet : es ≡ [] = ground arith in
            let made : s' ≡ record s { records = record { xarray = x; entries = [] } ∷ s.records } =
              ground arith in
            rw (none_yet, made) (ground arith, entries_of-new x y s e, ground arith, (e, u))
        | inr g ↦ absurd (ground arith)
      ]
    ]

record_for-none :
    (got_record : Bool) (x : ℕ) (s : Xarrays)
    → record_for got_record x s ≡ none
    → got_record ≡ false
unfolding record_for
record_for-none got_record x s h = elim (Option-cases (Keyed.find record_key x s.records)) [
  | inl e ↦ ground arith
  | inr (r, e) ↦ absurd (ground arith)
]

-- The part of xa_insert behind the record.
module _ (x i value : ℕ) (s s' : Xarrays) (v : IsValid s')
    (same : (y : ℕ) → entries_of y s' ≡ entries_of y s)
    (known : Keyed.find record_key x s'.records ≢ none) (some_value : value ≢ 0) where
  filled :
      {es : List Entry}
      → insert_entry i value (entries_of x s') ≡ some es
      → IsValid (set_entries x es s')
        × (view s x i ≡ none)
        × ((y j : ℕ) → view (set_entries x es s') y j ≡ update (view s) x i (some value) y j)
  unfolding view entries_of
  filled {es} h = elim (Option-cases (Keyed.find record_key x s'.records)) [
    | inl e ↦ absurd (known e)
    | inr (r, e) ↦ (
      set_entries-IsValid x es s' e (insert_entry-IsSorted i value _ some_value (v.1 x) h) v,
      rw (← same x, insert_entry-absent i value _ (v.1 x) h) refl,
      λ y j. rw (entries_of-set x y es s' e) (elim (Bool-cases (y == x)) [
        | inr ne ↦ rw (ne, same y) refl
        | inl eq ↦
            let here = sym (same y) ∙ ap (λ z. entries_of z s') ((==_iff y x).0 eq) in
            rw (eq, here, at_index-insert i value j (entries_of x s') (v.1 x) h)
              (elim (Bool-cases (j == i)) [ inl e' ↦ rw e' refl | inr e' ↦ rw e' refl ])
      ]),
    )
  ]

pub xa_insert-Inserts :
    (got_record got_entry : Bool) (x i value : ℕ) (s : Xarrays)
    → IsValid s
    → IsValid (xa_insert got_record got_entry x i value s).1
      × Inserts got_record got_entry x i value
          (view s)
          (xa_insert got_record got_entry x i value s).0
          (view (xa_insert got_record got_entry x i value s).1)
unfolding xa_insert
xa_insert-Inserts got_record got_entry x i value s v = elim (Bool-cases (x == 0 || value == 0)) [
  | inl bad ↦ rw bad (v, inr ((λ y j. refl), inl (refl, ground arith)))
  | inr good ↦ elim (Option-cases (record_for got_record x s)) [
    | inl n ↦
        let none_made = record_for-none got_record x s n in
        rw (good, n) (v, inr ((λ y j. refl), inr (inr (refl, ground arith))))
    | inr (p, n) ↦
        let made = λ (y : ℕ). record_for-made got_record x y s {es = p.0} {s' = p.1} v.0 n in
        let same = λ (y : ℕ). (made y).1 in
        let v' = IsValid-same s p.1 (made x).3 same v in
        let here : p.0 ≡ entries_of x p.1 = (made x).0 ∙ sym (same x) in
        elim (Option-cases (insert_entry i value (entries_of x p.1))) [
          | inl d ↦
              rw (good, n, here, d)
                (
                  v',
                  inr (
                    view-same s p.1 same,
                    inr (
                        inl (
                          refl,
                          λ z.
                              (insert_entry-none_iff i value _ (v'.1 x)).0 d
                                (rw (same x) (view-none s x i z)),
                        )),
                  ),
                )
          | inr (es, d) ↦
              let done = filled x i value s p.1 v' same (made x).2 (ground arith) d in
              elim (Bool-cases got_entry) [
                | inl g ↦
                    rw (good, n, here, d, g)
                      (done.0, inl (refl, ground arith, ground arith, done.1, done.2))
                | inr g ↦
                    rw (good, n, here, d, g)
                      (v', inr (view-same s p.1 same, inr (inr (refl, ground arith))))
              ]
        ]
  ]
]
