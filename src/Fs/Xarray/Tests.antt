-- ===== src/Fs/Xarray/Tests.antt =====
-- The xarray at 64 with entries at two indices, and nothing in the page cache.
use kobox.Prelude.{Bool-cases, [], arith, inl, inr, neg, refl, true, ℕ, ◌==◌, ◌∷◌, ◌≡◌}
use kobox.Keyed
use kobox.Fs.Xarray.{Xarrays, entries_of, insert_entry, xa_insert, record_for}
use kobox.Fs.Xarray.Sorted.{IsSorted}
use kobox.Fs.Xarray.View.{view, IsValid}
use kobox.Fs.Xarray.Refine.{find_after, run, Allowed, run-Allowed}

abbrev two_entries : Xarrays
two_entries = record {
  records =
      record {
        xarray = 64;
        entries = record { index = 3; entry = 700 } ∷ record { index = 9; entry = 800 } ∷ [];
      }
      ∷ [];
  head = λ _. 700;
}

two_entries-IsSorted : (x : ℕ) → IsSorted (entries_of x two_entries)
unfolding entries_of Keyed.find
two_entries-IsSorted x = elim (Bool-cases (64 == x)) [
  | inl e ↦
      let same : entries_of x two_entries
          ≡ record { index = 3; entry = 700 } ∷ record { index = 9; entry = 800 } ∷ [] =
        rw (entries_of, e) refl in
      rw same (omega arith, (omega arith, tt), (omega arith, tt, tt))
  | inr e ↦ let same : entries_of x two_entries ≡ [] = rw (entries_of, e) refl in rw same tt
]

two_entries-IsValid : IsValid two_entries
unfolding Keyed.find
two_entries-IsValid = ((refl, tt), two_entries-IsSorted)

-- A full index is busy.
busy_index : (xa_insert true true 64 9 500 two_entries).0 ≡ neg 16
unfolding xa_insert insert_entry entries_of Keyed.find record_for
busy_index = refl

run-Allowed_example :
    IsValid (run [] (find_after 64 3 100) two_entries).1
    × Allowed []
        (find_after 64 3 100)
        (view two_entries)
        (run [] (find_after 64 3 100) two_entries).0
        (view (run [] (find_after 64 3 100) two_entries).1)
run-Allowed_example =
    run-Allowed [] (find_after 64 3 100) two_entries two_entries-IsValid (omega arith)
