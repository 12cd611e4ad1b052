-- ===== src/Fs/Xarray/Change.antt =====
-- xa_erase, xa_store and xa_destroy of src/linux_subsystem/fs/fs.c as changes of the map.
use mathlib.Core.Option
use kobox.Prelude.{
  ==_iff, ==_ne, Bool, Bool-cases, List, Option, Option-cases, [], arith, false, if◌then◌else◌, inl,
  inr, neg, none, refl, some, ℕ, ◌&&◌, ◌==◌, ◌≡◌, ◌≢◌, ◌⊎◌,
}
use kobox.Keyed
use kobox.Keyed.{IsUnique}
use kobox.Fs.Xarray.{
  Entry, Record, Xarrays, record_key, entry_key, as_pointer, set_entries, erase_entry, entries_of,
  write_head, xa_erase, xa_store, xa_destroy,
}
use kobox.Fs.Xarray.Sorted.{
  at_index, erase_entry-none, at_index-erase, erase_entry-IsSorted, modify-IsSorted,
}
use kobox.Fs.Xarray.View.{Map, view, update, IsValid, entries_of-set, set_entries-IsValid}
use kobox.Fs.Xarray.Insert.{xa_insert-Inserts}

abbrev pub or_null : Option ℕ → ℕ
or_null none = 0
or_null (some value) = value

abbrev pub SameMap : Map → Map → Type 0
SameMap m m' = (y j : ℕ) → m' y j ≡ m y j

-- What xa_erase promises of its result and of the map.
abbrev pub Erases : ℕ → ℕ → Map → ℕ → Map → Type 0
Erases x i m old m' =
    ((x ≡ 0) × (old ≡ 0) × SameMap m m')
    ⊎ ((old ≡ or_null (m x i)) × ((y j : ℕ) → m' y j ≡ update m x i none y j))

entries_of-found :
    (x : ℕ) (s : Xarrays) {r : Record}
    → Keyed.find record_key x s.records ≡ some r
    → entries_of x s ≡ r.entries
unfolding entries_of
entries_of-found x s h = rw (entries_of, h) refl

-- A map without the index is not changed by erasing it.
update-absent : (m : Map) (x i y j : ℕ) → m x i ≡ none → m y j ≡ update m x i none y j
update-absent m x i y j h = elim (Bool-cases (y == x && j == i)) [
  | inr ne ↦ rw ne refl
  | inl eq ↦ rw (eq, (==_iff y x).0 (ground arith), (==_iff j i).0 (ground arith)) h
]

view-absent : (s : Xarrays) (x i : ℕ) → at_index i (entries_of x s) ≡ none → view s x i ≡ none
unfolding view
view-absent s x i h = rw h refl

view-missing :
    (s : Xarrays) (x i : ℕ) → Keyed.find record_key x s.records ≡ none → view s x i ≡ none
unfolding view entries_of Keyed.find
view-missing s x i h = rw (entries_of, h) refl

found_in :
    (s : Xarrays) (x i : ℕ) {e : Entry}
    → Keyed.find record_key x s.records ≡ none
    → at_index i (entries_of x s) ≢ some e
unfolding entries_of Keyed.find
found_in s x i h g = ground arith

module _ (s : Xarrays) (x i : ℕ) {p : ℕ × List Entry} (v : IsValid s)
    (d : erase_entry i (entries_of x s) ≡ some p) where
  erased_value : p.0 ≡ or_null (view s x i)
  unfolding view
  erased_value = rw (at_index-erase i i _ (v.1 x) d).0 refl

  view-erased :
      (y j : ℕ) {r : Record}
      → Keyed.find record_key x s.records ≡ some r
      → view (set_entries x p.1 s) y j ≡ update (view s) x i none y j
  unfolding view
  view-erased y j n = rw (entries_of-set x y p.1 s n) (elim (Bool-cases (y == x)) [
    | inr ne ↦ rw ne refl
    | inl eq ↦
        rw (eq, (==_iff y x).0 eq, (at_index-erase i j _ (v.1 x) d).1)
          (elim (Bool-cases (j == i)) [ inl e ↦ rw e refl | inr e ↦ rw e refl ])
  ])

pub xa_erase-Erases :
    (x i : ℕ) (s : Xarrays)
    → IsValid s
    → IsValid (xa_erase x i s).1 × Erases x i (view s) (xa_erase x i s).0 (view (xa_erase x i s).1)
unfolding xa_erase
xa_erase-Erases x i s v = elim (Bool-cases (x == 0)) [
  | inl e ↦ rw e (v, inl (ground arith, refl, λ y j. refl))
  | inr ne ↦ elim (Option-cases (Keyed.find record_key x s.records)) [
    | inl n ↦
        let absent = view-missing s x i n in
        rw (ne, n) (v, inr (rw absent refl, λ y j. update-absent (view s) x i y j absent))
    | inr (r, n) ↦
        let here = entries_of-found x s n in
        elim (Option-cases (erase_entry i (entries_of x s))) [
          | inl d ↦
              let absent = view-absent s x i (erase_entry-none i _ (v.1 x) d) in
              rw (ne, n, ← here, d)
                (v, inr (rw absent refl, λ y j. update-absent (view s) x i y j absent))
          | inr (p, d) ↦
              rw (ne, n, ← here, d)
                (
                  set_entries-IsValid x p.1 s n (erase_entry-IsSorted i _ (v.1 x) d) v,
                  inr (erased_value s x i v d, λ y j. view-erased s x i v d y j n),
                )
        ]
  ]
]

entries_of-destroy :
    (x y : ℕ) (s : Xarrays)
    → IsUnique record_key s.records
    → x ≢ 0
    → entries_of y (xa_destroy x s) ≡ (if y == x then [] else entries_of y s)
unfolding xa_destroy write_head entries_of
entries_of-destroy x y s u n = elim (Bool-cases (y == x)) [
  | inl eq ↦
      rw
        (
          eq,
          (==_iff y x).0 eq,
          ==_ne x 0 n,
          entries_of,
          Keyed.find-remove_self record_key x s.records u,
        )
        refl
  | inr ne ↦
      let other = Keyed.find-remove_ne record_key x y s.records (λ e. ground arith) in
      rw (ne, ==_ne x 0 n, entries_of, other) refl
]

xa_destroy-IsUnique :
    (x : ℕ) (s : Xarrays)
    → IsUnique record_key s.records
    → IsUnique record_key (xa_destroy x s).records
unfolding xa_destroy write_head
xa_destroy-IsUnique x s u =
    let kept = Keyed.remove-IsUnique record_key x s.records u in ground arith

xa_destroy-null : (x : ℕ) (s : Xarrays) → x ≡ 0 → xa_destroy x s ≡ s
unfolding xa_destroy
xa_destroy-null x s h = rw h refl

at_index-nil : (j : ℕ) → Option.map (λ e. e.entry) (at_index j []) ≡ none
unfolding Keyed.find
at_index-nil j = refl

-- What xa_destroy promises: it empties the xarray.
abbrev pub Destroys : ℕ → Map → Map → Type 0
Destroys x m m' = ((x ≡ 0) × SameMap m m') ⊎ ((y j : ℕ) → m' y j ≡ (if y == x then none else m y j))

pub xa_destroy-Destroys :
    (x : ℕ) (s : Xarrays)
    → IsValid s
    → IsValid (xa_destroy x s) × Destroys x (view s) (view (xa_destroy x s))
unfolding view
xa_destroy-Destroys x s v = elim (Bool-cases (x == 0)) [
  | inl e ↦ rw (xa_destroy-null x s ((==_iff x 0).0 e)) (v, inl ((==_iff x 0).0 e, λ y j. refl))
  | inr ne ↦
      let at = λ (y : ℕ). entries_of-destroy x y s v.0 (λ e. ground arith) in
      (
        (
          xa_destroy-IsUnique x s v.0,
          λ y. rw (at y) (elim (Bool-cases (y == x)) [ inl e ↦ rw e tt | inr e ↦ rw e (v.1 y) ]),
        ),
        inr λ y j.
            rw (at y)
              (elim (Bool-cases (y == x)) [ inl e ↦ rw e (at_index-nil j) | inr e ↦ rw e refl ]),
      )
]

-- What xa_store promises of its result and of the map, for an entry other than NULL.
abbrev pub Stores : Bool → Bool → ℕ → ℕ → ℕ → Map → ℕ → Map → Type 0
Stores got_record got_entry x i value m old m' =
    ((x ≢ 0) × (old ≡ or_null (m x i)) × ((y j : ℕ) → m' y j ≡ update m x i (some value) y j))
    ⊎ ((old ≡ as_pointer (neg 22)) × (x ≡ 0) × SameMap m m')
    ⊎ ((old ≡ as_pointer (neg 12))
        × (m x i ≡ none)
        × ((got_record && got_entry) ≡ false)
        × SameMap m m')

-- The part of xa_store that finds the index.
module _ (x i value : ℕ) (s : Xarrays) {old : Entry} (v : IsValid s) (n : value ≢ 0)
    (not_null : x ≢ 0) (here : at_index i (entries_of x s) ≡ some old) where
  abbrev replacing : List Entry
  replacing = Keyed.modify entry_key i (λ e. record e { entry = value }) (entries_of x s)

  replaced_value : old.entry ≡ or_null (view s x i)
  unfolding view
  replaced_value = rw here refl

  view-replaced :
      (y j : ℕ) {r : Record}
      → Keyed.find record_key x s.records ≡ some r
      → view (set_entries x replacing s) y j ≡ update (view s) x i (some value) y j
  unfolding view
  view-replaced y j known = rw (entries_of-set x y replacing s known) (elim (Bool-cases (y == x)) [
    | inr ne ↦ rw ne refl
    | inl eq ↦
        rw
          (
            eq,
            (==_iff y x).0 eq,
            Keyed.find-modify entry_key i j (λ e. record e { entry = value }) (entries_of x s)
                (λ a. refl),
            here,
          )
          (elim (Bool-cases (j == i)) [ inl e ↦ rw e refl | inr e ↦ rw e refl ])
  ])

  replaced :
      IsValid (set_entries x replacing s)
      × ((x ≢ 0)
          × (old.entry ≡ or_null (view s x i))
          × ((y j : ℕ)
              → view (set_entries x replacing s) y j ≡ update (view s) x i (some value) y j))
  replaced = elim (Option-cases (Keyed.find record_key x s.records)) [
    | inl e ↦ absurd (found_in s x i e here)
    | inr (r, e) ↦ (
      set_entries-IsValid x replacing s e (modify-IsSorted i value _ n (v.1 x)) v,
      (not_null, replaced_value, λ y j. view-replaced y j e),
    )
  ]

pub xa_store-Stores :
    (got_record got_entry : Bool) (x i value : ℕ) (s : Xarrays)
    → IsValid s
    → value ≢ 0
    → IsValid (xa_store got_record got_entry x i value s).1
      × Stores got_record got_entry x i value
          (view s)
          (xa_store got_record got_entry x i value s).0
          (view (xa_store got_record got_entry x i value s).1)
unfolding xa_store
xa_store-Stores got_record got_entry x i value s v n =
    let inserted = xa_insert-Inserts got_record got_entry x i value s v in
    elim (Bool-cases (x == 0)) [
      | inl e ↦ rw e (v, inr (inl (refl, ground arith, λ y j. refl)))
      | inr ne ↦ elim (Option-cases (at_index i (entries_of x s))) [
        | inl absent ↦
            rw (ne, ==_ne value 0 n, absent)
              (elim inserted.1 [
                | inl done ↦
                    rw done.0 (inserted.0, inl (done.1, rw (view-absent s x i absent) refl, done.4))
                | inr failed ↦ elim failed.1 [
                  | inl bad ↦ absurd (ground arith)
                  | inr (inl taken) ↦ absurd (taken.1 (view-absent s x i absent))
                  | inr (inr memory) ↦
                      rw memory.0
                        (inserted.0, inr (inr (refl, view-absent s x i absent, memory.1, failed.0)))
                ]
              ])
        | inr (old, here) ↦
            rw (ne, ==_ne value 0 n, here)
              (let r = replaced x i value s v n (λ e. ground arith) here in (r.0, inl r.1))
      ]
    ]
