-- ===== src/Fs/Xarray.antt =====
-- The xarrays of src/linux_subsystem/fs/fs.c: index-sorted lists kept outside the kernel's own
-- structure, of which only the head word is written. A call holds the lock from its first to its
-- last access of the lists, so calls are atomic; `xa_store` drops it before it calls `xa_insert`.
pub mod Sorted
pub mod View
pub mod Insert
pub mod Change
pub mod Refine
mod Tests
use kobox.Prelude.{
  Bool, List, Option, [], false, if◌then◌else◌, is_zero, leb, ltb, neg, negsuc, none, pos, some,
  suc, true, u64_mod, ℕ, ℤ, ◌%◌, ◌&&◌, ◌+◌, ◌-◌, ◌==◌, ◌||◌, ◌∷◌,
}
use kobox.Keyed

-- kb_fs_xarray_entry_t
pub record Entry : Type 0 where
  pub index : ℕ
  pub entry : ℕ

-- kb_fs_xarray_record_t
pub record Record : Type 0 where
  pub xarray : ℕ
  pub entries : List Entry

-- What the loads of the page cache read of kb_fs_filemap_folio_record_t.
pub record Folio : Type 0 where
  pub active : Bool
  pub mapping : ℕ
  pub index : ℕ
  pub folio : ℕ

-- `head x` is the word at offset 8 of the xarray `x`.
pub record Xarrays : Type 0 where
  pub records : List Record
  pub head : ℕ → ℕ

abbrev pub record_key : Record → ℕ
record_key r = r.xarray

abbrev pub entry_key : Entry → ℕ
entry_key e = e.index

-- An `int` status cast to a pointer.
abbrev pub as_pointer : ℤ → ℕ
as_pointer (pos n) = n
as_pointer (negsuc n) = u64_mod - suc n

-- The entry that the head word is set to.
pub first_entry : List Entry → ℕ
first_entry [] = 0
first_entry (e ∷ _) = e.entry

pub write_head : ℕ → ℕ → Xarrays → Xarrays
write_head x value s =
    if x == 0 then s else record s { head = λ a. if a == x then value else s.head a }

pub set_entries : ℕ → List Entry → Xarrays → Xarrays
unfolding write_head first_entry
set_entries x entries s = write_head x (first_entry entries) (record s {
  records = Keyed.modify record_key x (λ r. record r { entries = entries }) s.records;
})

-- The two cursor loops: the new entry goes before the first larger index; `none` is an index
-- that is taken.
pub insert_entry : ℕ → ℕ → List Entry → Option (List Entry)
insert_entry i value [] = some (record { index = i; entry = value } ∷ [])
insert_entry i value (e ∷ es) =
    let rest = insert_entry i value es in
    if ltb e.index i
    then elim rest [ none ↦ none | some es' ↦ some (e ∷ es') ]
    else if e.index == i
    then none
    else some (record { index = i; entry = value } ∷ e ∷ es)

-- The removed entry and the list without it.
pub erase_entry : ℕ → List Entry → Option (ℕ × List Entry)
erase_entry i [] = none
erase_entry i (e ∷ es) =
    let rest = erase_entry i es in
    if ltb e.index i
    then elim rest [ none ↦ none | some (old, es') ↦ some (old, e ∷ es') ]
    else if e.index == i
    then some (e.entry, es)
    else none

-- The loop of xa_load, which stops behind the index.
pub load_entry : ℕ → List Entry → Option ℕ
load_entry i [] = none
load_entry i (e ∷ es) =
    let rest = load_entry i es in
    if leb e.index i then (if e.index == i then some e.entry else rest) else none

pub find_entry_from : ℕ → ℕ → List Entry → Option Entry
find_entry_from low high [] = none
find_entry_from low high (e ∷ es) =
    if leb low e.index && leb e.index high then some e else find_entry_from low high es

-- The record of the xarray, made if there is none; `none` if that fails.
pub record_for : Bool → ℕ → Xarrays → Option (List Entry × Xarrays)
record_for got_record x s = elim (Keyed.find record_key x s.records) [
  | some r ↦ some (r.entries, s)
  | none ↦
      if got_record
      then some ([], record s { records = record { xarray = x; entries = [] } ∷ s.records })
      else none
]

pub xa_insert : Bool → Bool → ℕ → ℕ → ℕ → Xarrays → ℤ × Xarrays
unfolding record_for insert_entry set_entries
xa_insert got_record got_entry x i value s =
    if x == 0 || value == 0 then (neg 22, s) else elim (record_for got_record x s) [
      | none ↦ (neg 12, s)
      | some (entries, s') ↦ elim (insert_entry i value entries) [
        | none ↦ (neg 16, s')
        | some entries' ↦ if got_entry then (pos 0, set_entries x entries' s') else (neg 12, s')
      ]
    ]

pub xa_erase : ℕ → ℕ → Xarrays → ℕ × Xarrays
unfolding erase_entry set_entries
xa_erase x i s = if x == 0 then (0, s) else elim (Keyed.find record_key x s.records) [
  | none ↦ (0, s)
  | some r ↦ elim (erase_entry i r.entries) [
    | none ↦ (0, s)
    | some (old, entries) ↦ (old, set_entries x entries s)
  ]
]

-- The entries that a loop over `record->entries` sees.
pub entries_of : ℕ → Xarrays → List Entry
entries_of x s = elim (Keyed.find record_key x s.records) [ none ↦ [] | some r ↦ r.entries ]

pub xa_store : Bool → Bool → ℕ → ℕ → ℕ → Xarrays → ℕ × Xarrays
unfolding entries_of xa_insert xa_erase set_entries
xa_store got_record got_entry x i value s =
    if x == 0
    then (as_pointer (neg 22), s)
    else if value == 0
    then xa_erase x i s
    else let entries = entries_of x s in
      elim (Keyed.find entry_key i entries) [
        | some old ↦ (
          old.entry,
          set_entries x (Keyed.modify entry_key i (λ e. record e { entry = value }) entries) s,
        )
        | none ↦
            let inserted = xa_insert got_record got_entry x i value s in
            (if is_zero inserted.0 then 0 else as_pointer inserted.0, inserted.1)
      ]

-- The loop of filemap_xarray_load.
pub load_folio : List Folio → ℕ → ℕ → ℕ
load_folio [] mapping i = 0
load_folio (f ∷ fs) mapping i =
    if f.active && f.mapping == mapping && f.index == i then f.folio else load_folio fs mapping i

-- The address space of a page cache holds its xarray at offset 8; pointers wrap.
pub filemap_xarray_load : List Folio → ℕ → ℕ → ℕ
unfolding load_folio
filemap_xarray_load cache x i =
    if x == 0 then 0 else load_folio cache ((x + (u64_mod - 8)) % u64_mod) i

pub xa_load : List Folio → ℕ → ℕ → Xarrays → ℕ
unfolding entries_of load_entry filemap_xarray_load
xa_load cache x i s =
    if x == 0
    then 0
    else let entries = entries_of x s in
      elim (load_entry i entries) [ some value ↦ value | none ↦ filemap_xarray_load cache x i ]

-- The entry and the index that it writes; 0 where it finds none.
pub find_from : ℕ → ℕ → ℕ → Bool → Xarrays → ℕ × ℕ
unfolding entries_of find_entry_from
find_from x i high after s =
    if x == 0 || after && i == u64_mod - 1
    then (0, i)
    else let entries = entries_of x s in
      elim (find_entry_from (if after then i + 1 else i) high entries) [
        | none ↦ (0, i)
        | some e ↦ (e.entry, e.index)
      ]

pub xa_find : ℕ → ℕ → ℕ → Xarrays → ℕ × ℕ
xa_find x i high = find_from x i high false

pub xa_find_after : ℕ → ℕ → ℕ → Xarrays → ℕ × ℕ
xa_find_after x i high = find_from x i high true

pub xa_destroy : ℕ → Xarrays → Xarrays
unfolding write_head
xa_destroy x s =
    if x == 0
    then s
    else write_head x 0 (record s { records = Keyed.remove record_key x s.records })
