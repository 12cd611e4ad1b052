-- ===== src/Fs/Xarray/Sorted.antt =====
-- The sorted lists of src/linux_subsystem/fs/fs.c: each operation as a change at one index.
use kobox.Prelude.{
  All, Bool-cases, List, Option, Option-cases, [], arith, if◌then◌else◌, inl, inr, ltb, none, refl,
  some, ℕ, ◌<◌, ◌==◌, ◌↔◌, ◌∷◌, ◌≡◌, ◌≢◌, ◌≤◌,
}
use kobox.Keyed
use kobox.Fs.Xarray.{Entry, entry_key, insert_entry, erase_entry, load_entry, find_entry_from}

abbrev pub IsAbove : ℕ → List Entry → Type 0
IsAbove i = All λ f. i < f.index

-- The indices rise, and no entry is NULL.
abbrev pub IsSorted : List Entry → Type 0
IsSorted [] = Unit
IsSorted (e ∷ es) = (e.entry ≢ 0) × IsAbove e.index es × IsSorted es

abbrev pub at_index : ℕ → List Entry → Option Entry
at_index = Keyed.find entry_key

at_index-below : (i j : ℕ) (es : List Entry) → i ≤ j → IsAbove j es → at_index i es ≡ none
unfolding Keyed.find
at_index-below i j [] h a = refl
at_index-below i j (e ∷ es) h a = ground (arith, at_index-below i j es h a.1)

IsAbove-trans : (i j : ℕ) (es : List Entry) → i ≤ j → IsAbove j es → IsAbove i es
IsAbove-trans i j [] h a = tt
IsAbove-trans i j (e ∷ es) h a = (ground arith, IsAbove-trans i j es h a.1)

module _ (i value : ℕ) where
  pub at_index-insert :
      (j : ℕ) (es : List Entry) {es' : List Entry}
      → IsSorted es
      → insert_entry i value es ≡ some es'
      → at_index j es'
        ≡ (if j == i then some (record { index = i; entry = value }) else at_index j es)
  unfolding Keyed.find insert_entry
  at_index-insert j [] {es'} t h =
      let e : es' ≡ record { index = i; entry = value } ∷ [] = ground arith in rw e (ground arith)
  at_index-insert j (e ∷ es) {es'} t h = elim (Option-cases (insert_entry i value es)) [
    | inl n ↦ ground (arith, at_index-below j e.index es)
    | inr (rest, n) ↦
        let ih = at_index-insert j es {es' = rest} t.2 n in
        ground (arith, at_index-below j e.index es)
  ]

  pub insert_entry-none_iff :
      (es : List Entry) → IsSorted es → (insert_entry i value es ≡ none) ↔ (at_index i es ≢ none)
  unfolding Keyed.find insert_entry
  insert_entry-none_iff [] t = ground arith
  insert_entry-none_iff (e ∷ es) t = elim (Option-cases (insert_entry i value es)) [
    | inl n ↦ ground (arith, insert_entry-none_iff es t.2, at_index-below i e.index es)
    | inr (rest, n) ↦ ground (arith, insert_entry-none_iff es t.2, at_index-below i e.index es)
  ]

pub load_entry-at_index :
    (i : ℕ) (es : List Entry)
    → IsSorted es
    → load_entry i es ≡ elim (at_index i es) [ none ↦ none | some e ↦ some e.entry ]
unfolding Keyed.find load_entry
load_entry-at_index i [] t = refl
load_entry-at_index i (e ∷ es) t =
    ground (arith, load_entry-at_index i es t.2, at_index-below i e.index es)

pub erase_entry-none :
    (i : ℕ) (es : List Entry) → IsSorted es → erase_entry i es ≡ none → at_index i es ≡ none
unfolding Keyed.find erase_entry
erase_entry-none i [] t h = refl
erase_entry-none i (e ∷ es) t h = elim (Option-cases (erase_entry i es)) [
  | inl n ↦ ground (arith, erase_entry-none i es t.2, at_index-below i e.index es)
  | inr (rest, n) ↦ ground (arith, at_index-below i e.index es)
]

pub at_index-erase :
    (i j : ℕ) (es : List Entry) {old : ℕ} {es' : List Entry}
    → IsSorted es
    → erase_entry i es ≡ some (old, es')
    → (at_index i es ≡ some (record { index = i; entry = old }))
      × (at_index j es' ≡ (if j == i then none else at_index j es))
unfolding Keyed.find erase_entry
at_index-erase i j [] t h = absurd (cc)
at_index-erase i j (e ∷ es) {old} {es'} t h = elim (Option-cases (erase_entry i es)) [
  | inl n ↦ ground (arith, at_index-below j e.index es)
  | inr (rest, n) ↦
      let ih = at_index-erase i j es {old = rest.0} {es' = rest.1} t.2 n in
      ground (arith, at_index-below j e.index es)
]

insert_entry-IsAbove :
    (i value low : ℕ) (es : List Entry) {es' : List Entry}
    → low < i
    → IsAbove low es
    → insert_entry i value es ≡ some es'
    → IsAbove low es'
unfolding insert_entry
insert_entry-IsAbove i value low [] {es'} h a e =
    let e' : es' ≡ record { index = i; entry = value } ∷ [] = ground arith in rw e' (h, tt)
insert_entry-IsAbove i value low (x ∷ xs) {es'} h a e =
    elim (Option-cases (insert_entry i value xs)) [
      | inl n ↦ ground arith
      | inr (rest, n) ↦
          let ih = insert_entry-IsAbove i value low xs {es' = rest} h a.1 n in ground arith
    ]

pub insert_entry-IsSorted :
    (i value : ℕ) (es : List Entry) {es' : List Entry}
    → value ≢ 0
    → IsSorted es
    → insert_entry i value es ≡ some es'
    → IsSorted es'
unfolding insert_entry
insert_entry-IsSorted i value [] {es'} v t h =
    let e : es' ≡ record { index = i; entry = value } ∷ [] = ground arith in rw e (v, tt, tt)
insert_entry-IsSorted i value (e ∷ es) {es'} v t h = elim (Bool-cases (ltb e.index i)) [
  | inl lt ↦ elim (Option-cases (insert_entry i value es)) [
    | inl n ↦ absurd (ground arith)
    | inr (rest, n) ↦
        let e' : es' ≡ e ∷ rest = ground arith in
        rw e' (
          t.0,
          insert_entry-IsAbove i value e.index es (ground arith) t.1 n,
          insert_entry-IsSorted i value es v t.2 n,
        )
  ]
  | inr ge ↦
      let e' : es' ≡ record { index = i; entry = value } ∷ e ∷ es = ground arith in
      rw e' (v, (ground arith, IsAbove-trans i e.index es (ground arith) t.1), t)
]

erase_entry-IsAbove :
    (i low : ℕ) (es : List Entry) {old : ℕ} {es' : List Entry}
    → IsAbove low es
    → erase_entry i es ≡ some (old, es')
    → IsAbove low es'
unfolding erase_entry
erase_entry-IsAbove i low [] a h = absurd (cc)
erase_entry-IsAbove i low (e ∷ es) {old} {es'} a h = elim (Option-cases (erase_entry i es)) [
  | inl n ↦ ground arith
  | inr (rest, n) ↦ let ih = erase_entry-IsAbove i low es {es' = rest.1} a.1 n in ground arith
]

pub erase_entry-IsSorted :
    (i : ℕ) (es : List Entry) {old : ℕ} {es' : List Entry}
    → IsSorted es
    → erase_entry i es ≡ some (old, es')
    → IsSorted es'
unfolding erase_entry
erase_entry-IsSorted i [] t h = absurd (cc)
erase_entry-IsSorted i (e ∷ es) {old} {es'} t h = elim (Option-cases (erase_entry i es)) [
  | inl n ↦ ground arith
  | inr (rest, n) ↦
      let ih = erase_entry-IsSorted i es {es' = rest.1} t.2 n in
      let above = erase_entry-IsAbove i e.index es {es' = rest.1} t.1 n in ground arith
]

pub find_entry_from-found :
    (low high : ℕ) (es : List Entry) {e : Entry}
    → IsSorted es
    → find_entry_from low high es ≡ some e
    → (low ≤ e.index) × (e.index ≤ high) × (at_index e.index es ≡ some e) × (e.entry ≢ 0)
unfolding Keyed.find find_entry_from
find_entry_from-found low high [] t h = absurd (cc)
find_entry_from-found low high (x ∷ xs) {e} t h =
    ground (arith, find_entry_from-found low high xs {e = e} t.2, at_index-below e.index x.index xs)

-- The search finds the least index of the range.
pub find_entry_from-least :
    (low high : ℕ) (es : List Entry) {e : Entry} (i : ℕ)
    → IsSorted es
    → find_entry_from low high es ≡ some e
    → low ≤ i
    → i < e.index
    → at_index i es ≡ none
unfolding Keyed.find find_entry_from
find_entry_from-least low high [] i t h l g = refl
find_entry_from-least low high (x ∷ xs) {e} i t h l g =
    let range = find_entry_from-found low high (x ∷ xs) {e = e} t h in
    ground (arith, find_entry_from-least low high xs {e = e} i t.2, at_index-below i x.index xs)

pub find_entry_from-none :
    (low high i : ℕ) (es : List Entry)
    → find_entry_from low high es ≡ none
    → low ≤ i
    → i ≤ high
    → at_index i es ≡ none
unfolding Keyed.find find_entry_from
find_entry_from-none low high i [] h l g = refl
find_entry_from-none low high i (x ∷ xs) h l g = ground (arith, find_entry_from-none low high i xs)

pub insert_entry-absent :
    (i value : ℕ) (es : List Entry) {es' : List Entry}
    → IsSorted es
    → insert_entry i value es ≡ some es'
    → at_index i es ≡ none
insert_entry-absent i value es t h = elim (Option-cases (at_index i es)) [
  | inl e ↦ e
  | inr (found, e) ↦
      let taken = (insert_entry-none_iff i value es t).1 (λ n. absurd (cc)) in absurd (cc)
]

module _ (i value : ℕ) where
  modify-IsAbove :
      (low : ℕ) (es : List Entry)
      → IsAbove low es
      → IsAbove low (Keyed.modify entry_key i (λ e. record e { entry = value }) es)
  unfolding Keyed.modify
  modify-IsAbove low [] a = tt
  modify-IsAbove low (e ∷ es) a = ground (arith, modify-IsAbove low es a.1)

  pub modify-IsSorted :
      (es : List Entry)
      → value ≢ 0
      → IsSorted es
      → IsSorted (Keyed.modify entry_key i (λ e. record e { entry = value }) es)
  unfolding Keyed.modify
  modify-IsSorted [] v t = tt
  modify-IsSorted (e ∷ es) v t =
      ground (arith, modify-IsSorted es v t.2, modify-IsAbove e.index es t.1)
