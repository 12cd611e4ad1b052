-- ===== src/Fs/Xarray/View.antt =====
-- The xarrays of src/linux_subsystem/fs/fs.c refine a map from an xarray and an index to an entry.
use mathlib.Core.Option
use kobox.Prelude.{
  Bool-cases, List, Option, Option-cases, arith, if◌then◌else◌, inl, inr, none, refl, some, ℕ, ◌&&◌,
  ◌==◌, ◌≡◌,
}
use kobox.Keyed
use kobox.Keyed.{IsUnique}
use kobox.Fs.Xarray.{Entry, Record, Xarrays, record_key, write_head, set_entries, entries_of}
use kobox.Fs.Xarray.Sorted.{IsSorted, at_index}

abbrev pub Map : Type 0
Map = ℕ → ℕ → Option ℕ

-- The abstract view: which entry an xarray holds at an index.
unfoldable pub view : Xarrays → Map
unfolding entries_of
view s x i = Option.map (λ e. e.entry) (at_index i (entries_of x s))

abbrev pub update : Map → ℕ → ℕ → Option ℕ → Map
update m x i value y j = if y == x && j == i then value else m y j

-- The records are sorted, one for each xarray, and the head word is the first entry.
abbrev pub IsValid : Xarrays → Type 0
IsValid s = IsUnique record_key s.records × ((x : ℕ) → IsSorted (entries_of x s))

pub entries_of-set :
    (x y : ℕ) (es : List Entry) (s : Xarrays) {r : Record}
    → Keyed.find record_key x s.records ≡ some r
    → entries_of y (set_entries x es s) ≡ (if y == x then es else entries_of y s)
unfolding entries_of set_entries write_head
entries_of-set x y es s {r} h =
    let f =
      Keyed.find-modify record_key x y (λ r'. record r' { entries = es }) s.records (λ a. refl) in
    ground (arith)

pub set_entries-IsUnique :
    (x : ℕ) (es : List Entry) (s : Xarrays)
    → IsUnique record_key s.records
    → IsUnique record_key (set_entries x es s).records
unfolding set_entries write_head
set_entries-IsUnique x es s u =
    let kept =
      Keyed.modify-IsUnique record_key x (λ r. record r { entries = es }) s.records (λ a. refl) u in
    ground arith

-- A change of one xarray's entries, as a change of the view and of the invariant.
pub set_entries-IsValid :
    (x : ℕ) (es : List Entry) (s : Xarrays) {r : Record}
    → Keyed.find record_key x s.records ≡ some r
    → IsSorted es
    → IsValid s
    → IsValid (set_entries x es s)
set_entries-IsValid x es s h t v = (
  set_entries-IsUnique x es s v.0,
  λ y.
      rw (entries_of-set x y es s h)
        (elim (Bool-cases (y == x)) [ inl e ↦ rw e t | inr e ↦ rw e (v.1 y) ]),
)

pub view-set :
    (x y j : ℕ) (es : List Entry) (s : Xarrays) {r : Record}
    → Keyed.find record_key x s.records ≡ some r
    → view (set_entries x es s) y j
      ≡ (if y == x then Option.map (λ e. e.entry) (at_index j es) else view s y j)
unfolding view
view-set x y j es s h =
    rw (entries_of-set x y es s h)
      (elim (Bool-cases (y == x)) [ inl e ↦ rw e refl | inr e ↦ rw e refl ])

pub view-same :
    (s s' : Xarrays)
    → ((y : ℕ) → entries_of y s' ≡ entries_of y s)
    → (y j : ℕ) → view s' y j ≡ view s y j
unfolding view
view-same s s' h y j = rw (h y) refl

pub IsValid-same :
    (s s' : Xarrays)
    → IsUnique record_key s'.records
    → ((y : ℕ) → entries_of y s' ≡ entries_of y s)
    → IsValid s
    → IsValid s'
IsValid-same s s' u h v = (u, λ y. rw (h y) (v.1 y))

pub view-none : (s : Xarrays) (x i : ℕ) → view s x i ≡ none → at_index i (entries_of x s) ≡ none
unfolding view
view-none s x i h = elim (Option-cases (at_index i (entries_of x s))) [
  | inl e ↦ e
  | inr (e, g) ↦ absurd (ground arith)
]
