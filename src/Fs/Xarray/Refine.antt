-- ===== src/Fs/Xarray/Refine.antt =====
-- The xarrays of src/linux_subsystem/fs/fs.c against their abstract specification.
use kobox.Prelude.{
  Bool, Bool-cases, List, Option, Option-cases, ap, arith, false, if◌then◌else◌, inl, inr, neg,
  none, refl, some, true, u64_mod, ℕ, ℤ, ◌+◌, ◌-◌, ◌<◌, ◌==◌, ◌≡◌, ◌≢◌, ◌≤◌, ◌⊎◌,
}
use kobox.Fs.Xarray.{
  Entry, Folio, Xarrays, as_pointer, entries_of, find_entry_from, filemap_xarray_load, xa_insert,
  xa_erase, xa_store, xa_load, xa_find, xa_find_after, find_from, xa_destroy,
}
use kobox.Fs.Xarray.Sorted.{
  at_index, load_entry-at_index, find_entry_from-found, find_entry_from-least, find_entry_from-none,
}
use kobox.Fs.Xarray.View.{Map, view, IsValid}
use kobox.Fs.Xarray.Insert.{Inserts, xa_insert-Inserts}
use kobox.Fs.Xarray.Change.{
  SameMap, Erases, xa_erase-Erases, Destroys, xa_destroy-Destroys, Stores, xa_store-Stores,
}

-- The calls, with whether the allocation of a record and of an entry succeed.
pub data Call : Type 0 where
  insert : Bool → Bool → ℕ → ℕ → ℕ → Call
  store : Bool → Bool → ℕ → ℕ → ℕ → Call
  erase : ℕ → ℕ → Call
  destroy : ℕ → Call
  load : ℕ → ℕ → Call
  find find_after : ℕ → ℕ → ℕ → Call

pub data Answer : Type 0 where
  status : ℤ → Answer
  pointer : ℕ → Answer
  found : ℕ → ℕ → Answer
  nothing : Answer

-- A call of the code.
pub run : List Folio → Call → Xarrays → Answer × Xarrays
run cache (insert g h x i value) s = let r = xa_insert g h x i value s in (status r.0, r.1)
run cache (store g h x i value) s = let r = xa_store g h x i value s in (pointer r.0, r.1)
run cache (erase x i) s = let r = xa_erase x i s in (pointer r.0, r.1)
run cache (destroy x) s = (nothing, xa_destroy x s)
run cache (load x i) s = (pointer (xa_load cache x i s), s)
run cache (find x i high) s = let r = xa_find x i high s in (found r.0 r.1, s)
run cache (find_after x i high) s = let r = xa_find_after x i high s in (found r.0 r.1, s)

-- The least index from `low` to `high` that the map has, or NULL and the old index.
abbrev pub Finds : Map → ℕ → ℕ → ℕ → ℕ → ℕ → ℕ → Type 0
Finds m x low high before value index =
    ((value ≡ 0) × (index ≡ before) × ((x ≡ 0) ⊎ ((i : ℕ) → low ≤ i → i ≤ high → m x i ≡ none)))
    ⊎ ((value ≢ 0)
        × (low ≤ index)
        × (index ≤ high)
        × (m x index ≡ some value)
        × ((i : ℕ) → low ≤ i → i < index → m x i ≡ none))

-- What an answer and the map after a call may be, by the map before it.
abbrev pub Allowed : List Folio → Call → Map → Answer → Map → Type 0
Allowed cache (insert g h x i value) m a m' =
    (r : ℤ) × (a ≡ status r) × Inserts g h x i value m r m'
Allowed cache (store g h x i value) m a m' =
    (r : ℕ) × (a ≡ pointer r)
    × (((value ≡ 0) × (x ≡ 0) × (r ≡ as_pointer (neg 22)) × SameMap m m')
        ⊎ ((value ≡ 0) × Erases x i m r m')
        ⊎ ((value ≢ 0) × Stores g h x i value m r m'))
Allowed cache (erase x i) m a m' = (r : ℕ) × (a ≡ pointer r) × Erases x i m r m'
Allowed cache (destroy x) m a m' = (a ≡ nothing) × Destroys x m m'
Allowed cache (load x i) m a m' =
    SameMap m m'
    × (a
        ≡ pointer (
            if x == 0
            then 0
            else elim (m x i) [ some value ↦ value | none ↦ filemap_xarray_load cache x i ]))
Allowed cache (find x i high) m a m' =
    SameMap m m'
    × ((value : ℕ) × (index : ℕ) × (a ≡ found value index) × Finds m x i high i value index)
Allowed cache (find_after x i high) m a m' =
    SameMap m m'
    × ((value : ℕ) × (index : ℕ) × (a ≡ found value index) × Finds m x (i + 1) high i value index)

xa_load-view :
    (cache : List Folio) (x i : ℕ) (s : Xarrays)
    → IsValid s
    → xa_load cache x i s ≡ (
        if x == 0
        then 0
        else elim (view s x i) [ some value ↦ value | none ↦ filemap_xarray_load cache x i ])
unfolding xa_load view
xa_load-view cache x i s v = elim (Bool-cases (x == 0)) [
  | inl e ↦ rw e refl
  | inr ne ↦
      rw (ne, load_entry-at_index i (entries_of x s) (v.1 x))
        (elim (Option-cases (at_index i (entries_of x s))) [
          | inl e ↦ rw e refl
          | inr (r, e) ↦ rw e refl
        ])
]

-- The search, where its loop runs.
find_from-Finds :
    (x low high before : ℕ) (s : Xarrays) (o : Option Entry)
    → IsValid s
    → find_entry_from low high (entries_of x s) ≡ o
    → Finds
        (view s)
        x
        low
        high
        before
        (elim o [ none ↦ 0 | some e ↦ e.entry ])
        (elim o [ none ↦ before | some e ↦ e.index ])
unfolding view
find_from-Finds x low high before s none v h =
    inl (refl, refl, inr λ i l g. rw (find_entry_from-none low high i (entries_of x s) h l g) refl)
find_from-Finds x low high before s (some e) v h =
    let range = find_entry_from-found low high (entries_of x s) {e = e} (v.1 x) h in
    inr (
      range.3,
      range.0,
      range.1,
      rw range.2 refl,
      λ i l g. rw (find_entry_from-least low high (entries_of x s) {e = e} i (v.1 x) h l g) refl,
    )

find_at :
    (x low high before : ℕ) (s : Xarrays)
    → IsValid s
    → Finds
        (view s)
        x
        low
        high
        before
        (elim (find_entry_from low high (entries_of x s)) as (λ _. ℕ × ℕ) [
          | none ↦ (0, before)
          | some e ↦ (e.entry, e.index)
        ]).0
        (elim (find_entry_from low high (entries_of x s)) as (λ _. ℕ × ℕ) [
          | none ↦ (0, before)
          | some e ↦ (e.entry, e.index)
        ]).1
find_at x low high before s v = elim (Option-cases (find_entry_from low high (entries_of x s))) [
  | inl e ↦ rw e (find_from-Finds x low high before s none v e)
  | inr (r, e) ↦ rw e (find_from-Finds x low high before s (some r) v e)
]

xa_find-Finds :
    (x i high : ℕ) (s : Xarrays)
    → IsValid s
    → Finds (view s) x i high i (xa_find x i high s).0 (xa_find x i high s).1
unfolding xa_find find_from
xa_find-Finds x i high s v = elim (Bool-cases (x == 0)) [
  | inl e ↦ rw e (inl (refl, refl, inl (ground arith)))
  | inr ne ↦ rw ne (find_at x i high i s v)
]

xa_find_after-Finds :
    (x i high : ℕ) (s : Xarrays)
    → high < u64_mod
    → IsValid s
    → Finds (view s) x (i + 1) high i (xa_find_after x i high s).0 (xa_find_after x i high s).1
unfolding xa_find_after find_from
xa_find_after-Finds x i high s h v = elim (Bool-cases (x == 0)) [
  | inl e ↦ rw e (inl (refl, refl, inl (ground arith)))
  | inr ne ↦ elim (Bool-cases (i == u64_mod - 1)) [
    | inl e ↦ rw (ne, e) (inl (refl, refl, inr λ j l g. absurd (ground arith)))
    | inr e ↦ rw (ne, e) (find_at x (i + 1) high i s v)
  ]
]

xa_store-null :
    (g h : Bool) (x i value : ℕ) (s : Xarrays)
    → (x == 0) ≡ false
    → (value == 0) ≡ true
    → xa_store g h x i value s ≡ xa_erase x i s
unfolding xa_store
xa_store-null g h x i value s n e = rw (xa_store, n, e) refl

xa_store-nowhere :
    (g h : Bool) (x i value : ℕ) (s : Xarrays)
    → (x == 0) ≡ true
    → xa_store g h x i value s ≡ (as_pointer (neg 22), s)
unfolding xa_store
xa_store-nowhere g h x i value s e = rw (xa_store, e) refl

xa_store-Allowed :
    (g h : Bool) (x i value : ℕ) (s : Xarrays)
    → IsValid s
    → IsValid (xa_store g h x i value s).1
      × (((value ≡ 0)
            × (x ≡ 0)
            × ((xa_store g h x i value s).0 ≡ as_pointer (neg 22))
            × SameMap (view s) (view (xa_store g h x i value s).1))
          ⊎ ((value ≡ 0)
              × Erases x i
                  (view s)
                  (xa_store g h x i value s).0
                  (view (xa_store g h x i value s).1))
          ⊎ ((value ≢ 0)
              × Stores g h x i value
                  (view s)
                  (xa_store g h x i value s).0
                  (view (xa_store g h x i value s).1)))
xa_store-Allowed g h x i value s v = elim (Bool-cases (value == 0)) [
  | inr some_value ↦
      let r = xa_store-Stores g h x i value s v (λ e. ground arith) in
      (r.0, inr (inr ((λ e. ground arith), r.1)))
  | inl null ↦ elim (Bool-cases (x == 0)) [
    | inl e ↦
        rw (xa_store-nowhere g h x i value s e)
          (v, inl (ground arith, ground arith, refl, λ y j. refl))
    | inr ne ↦
        let r = xa_erase-Erases x i s v in
        rw (xa_store-null g h x i value s ne null) (r.0, inr (inl (ground arith, r.1)))
  ]
]

-- The words that a call passes.
abbrev pub IsWord : Call → Type 0
IsWord (find x i high) = high < u64_mod
IsWord (find_after x i high) = high < u64_mod
IsWord _ = Unit

-- Every xarray call keeps the index lists sorted, free of NULL and one for each xarray, and answers and changes
-- the map from an xarray and an index to an entry as its specification allows: xa_insert adds an
-- absent index or reports -EBUSY, -EINVAL or -ENOMEM without a change; xa_store replaces, and erases
-- for NULL; xa_erase gives the old entry; xa_find and xa_find_after give the least index of their
-- range; xa_load reads the map, and the page cache where the map has nothing. The maximal index of
-- a search is below 2^64.
pub run-Allowed :
    (cache : List Folio) (c : Call) (s : Xarrays)
    → IsValid s
    → IsWord c
    → IsValid (run cache c s).1
      × Allowed cache c (view s) (run cache c s).0 (view (run cache c s).1)
unfolding run
run-Allowed cache (insert g h x i value) s v w =
    let r = xa_insert-Inserts g h x i value s v in (r.0, (_, refl, r.1))
run-Allowed cache (store g h x i value) s v w =
    let r = xa_store-Allowed g h x i value s v in (r.0, (_, refl, r.1))
run-Allowed cache (erase x i) s v w = let r = xa_erase-Erases x i s v in (r.0, (_, refl, r.1))
run-Allowed cache (destroy x) s v w = let r = xa_destroy-Destroys x s v in (r.0, (refl, r.1))
run-Allowed cache (load x i) s v w = (v, ((λ y j. refl), ap pointer (xa_load-view cache x i s v)))
run-Allowed cache (find x i high) s v w =
    (v, ((λ y j. refl), (_, _, refl, xa_find-Finds x i high s v)))
run-Allowed cache (find_after x i high) s v w =
    (v, ((λ y j. refl), (_, _, refl, xa_find_after-Finds x i high s w v)))
