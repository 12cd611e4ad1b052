-- ===== src/Usb/Storage/Backing/Chunk.antt =====
-- The backing store of src/linux_subsystem/usb/storage.c as one flat run of bytes: one chunk.
use kobox.Prelude.{
  ==_refl, Bool, Bool-cases, Option, Option-cases, ap, arith, false, if◌then◌else◌, inl, inr, leb,
  ltb, none, refl, some, true, ℕ, ◌%◌, ◌&&◌, ◌+◌, ◌-◌, ◌/◌, ◌<◌, ◌==◌, ◌↔◌, ◌∙◌, ◌≡◌, ◌≢◌, ◌≤◌, ◌⊎◌,
}
use kobox.Keyed
use kobox.Usb.Storage.State.{Bytes, Extent, Storage, copy}
use kobox.Usb.Storage.Backing.{
  extent_key, storage_find_extent, storage_ensure_extent, put_chunk, transfer_chunk, chunk_of,
}

-- The byte at an offset of the medium: 0 where there is no extent.
abbrev pub byte_in : Option Extent → ℕ → ℕ
byte_in none at = 0
byte_in (some e) at = e.bytes at

unfoldable pub medium : Storage → Bytes
medium r a = byte_in (Keyed.find extent_key (a / 4096) r.extents) (a % 4096)

-- The offsets of one chunk are those of the medium.
abbrev pub IsChunk : ℕ → ℕ → Type 0
IsChunk offset n = offset % 4096 + n ≤ 4096

pub chunk_of_lem :
    (offset remaining : ℕ)
    → (remaining == 0) ≡ false
    → IsChunk offset (chunk_of offset remaining)
      × (1 ≤ chunk_of offset remaining)
      × (chunk_of offset remaining ≤ remaining)
chunk_of_lem offset remaining h = elim (Bool-cases (ltb remaining (4096 - offset % 4096))) [
  | inl e ↦ rw e (ground arith, ground arith, ground arith)
  | inr e ↦ rw e (ground arith, ground arith, ground arith)
]

-- What is inside a range, and where.
abbrev pub inside : ℕ → ℕ → ℕ → Bool
inside at n i = leb at i && ltb i (at + n)

-- An offset of the medium that is in the extent of the chunk.
inside_same :
    (offset n a : ℕ)
    → a / 4096 ≡ offset / 4096
    → (inside (offset % 4096) n (a % 4096) ≡ inside offset n a)
      × (a % 4096 - offset % 4096 ≡ a - offset)
inside_same offset n a h =
    let low : (offset % 4096 ≤ a % 4096) ↔ (offset ≤ a) = (λ l. omega arith, λ l. omega arith) in
    let high : (a % 4096 < offset % 4096 + n) ↔ (a < offset + n) =
      (λ l. omega arith, λ l. omega arith) in
    (ground arith, omega arith)

-- One that is in another.
inside_other :
    (offset n a : ℕ)
    → IsChunk offset n
    → (a / 4096 == offset / 4096) ≡ false
    → inside offset n a ≡ false
inside_other offset n a h ne =
    let apart : a / 4096 ≢ offset / 4096 = ground arith in
    let low : offset ≤ a → a < offset + n → ⊥ = λ l g. omega arith in
    elim (Bool-cases (leb offset a)) [
      | inl e ↦ elim (Bool-cases (ltb a (offset + n))) [
        | inl g ↦ absurd (low (ground arith) (ground arith))
        | inr g ↦ rw (e, g) refl
      ]
      | inr e ↦ rw e refl
    ]

-- A write of a chunk in the extent that is there.
chunk_written :
    (offset cursor n a : ℕ) (ram : Bytes) (o : Option Extent) (p : Option Extent)
    → IsChunk offset n
    → ((a / 4096 == offset / 4096) ≡ true
        → o
          ≡ some (record {
            index = offset / 4096;
            bytes = copy (byte_in p) (offset % 4096) ram cursor n;
          }))
    → ((a / 4096 == offset / 4096) ≡ false → o ≡ p)
    → byte_in o (a % 4096) ≡ copy (λ i. byte_in p (i % 4096)) offset ram cursor n a
chunk_written offset cursor n a ram o p h same other =
    elim (Bool-cases (a / 4096 == offset / 4096)) [
      | inl e ↦
          let q : a / 4096 ≡ offset / 4096 = ground arith in
          let i = inside_same offset n a q in rw (same e, i.0, i.1) refl
      | inr e ↦ rw (other e, inside_other offset n a h e) refl
    ]

-- Two copies of adjoining ranges are one, where the first made the bytes of `first`.
pub copy-copy :
    (to first from : Bytes) (at start c k i : ℕ)
    → first i ≡ copy to at from start c i
    → copy first (at + c) from (start + c) k i ≡ copy to at from start (c + k) i
copy-copy to first from at start c k i h = elim (Bool-cases (inside (at + c) k i)) [
  | inl e ↦
      let whole : inside at (c + k) i ≡ true = ground arith in
      let place : (start + c) + (i - (at + c)) ≡ start + (i - at) = ground arith in
      rw (e, whole, place) refl
  | inr e ↦ elim (Bool-cases (inside at c i)) [
    | inl g ↦ let whole : inside at (c + k) i ≡ true = ground arith in rw (e, h, g, whole) refl
    | inr g ↦ let whole : inside at (c + k) i ≡ false = ground arith in rw (e, h, g, whole) refl
  ]
]

found_at :
    (index j : ℕ) (r : Storage) {e : Extent}
    → Keyed.find extent_key index r.extents ≡ some e
    → Keyed.find extent_key j r.extents ≡ (
        if j == index
        then some (record { index = index; bytes = e.bytes })
        else Keyed.find extent_key j r.extents)
found_at index j r {e} f = elim (Bool-cases (j == index)) [
  | inl g ↦
      let same : j ≡ index = ground arith in
      let place : e.index ≡ index = Keyed.key-find extent_key index r.extents {a = e} f in
      rw (g, same, f) (ap (λ x. some (record { index = x; bytes = e.bytes })) place)
  | inr g ↦ rw g refl
]

-- No field of the record is changed but those of the backing store.
abbrev pub Keeps : Storage → Storage → Type 0
Keeps r r' = r' ≡ record r { extents = r'.extents; backing_bytes = r'.backing_bytes }

pub Keeps-trans : (r r' r'' : Storage) → Keeps r r' → Keeps r' r'' → Keeps r r''
Keeps-trans r r' r'' h g =
    g
    ∙ ap {A = Storage} (λ x. record x { extents = r''.extents; backing_bytes = r''.backing_bytes })
        h

ensure-Keeps :
    (got : ℕ → Bool) (index : ℕ) (r : Storage) → Keeps r (storage_ensure_extent got index r).1
unfolding storage_ensure_extent storage_find_extent
ensure-Keeps got index r = elim (Option-cases (Keyed.find extent_key index r.extents)) [
  | inr (e, f) ↦ rw (storage_ensure_extent, f) refl
  | inl f ↦ elim (Bool-cases (got index)) [
    | inl g ↦ rw (storage_ensure_extent, f, g) refl
    | inr g ↦ rw (storage_ensure_extent, f, g) refl
  ]
]

ensure_lem :
    (got : ℕ → Bool) (index : ℕ) (r : Storage)
    → (((storage_ensure_extent got index r).0 ≡ false) × (got index ≡ false))
      ⊎ (((storage_ensure_extent got index r).0 ≡ true)
          × ((j : ℕ)
              → Keyed.find extent_key j (storage_ensure_extent got index r).1.extents ≡ (
                  if j == index
                  then some (record {
                    index = index;
                    bytes = byte_in (Keyed.find extent_key index r.extents);
                  })
                  else Keyed.find extent_key j r.extents)))
unfolding storage_ensure_extent storage_find_extent Keyed.find
ensure_lem got index r = elim (Option-cases (Keyed.find extent_key index r.extents)) [
  | inr (e, f) ↦
      inr (
        rw (storage_ensure_extent, storage_find_extent, f)
          (refl, λ j. found_at index j r {e = e} f))
  | inl f ↦ elim (Bool-cases (got index)) [
    | inl g ↦ inr (
        rw (storage_ensure_extent, storage_find_extent, f, g)
          (refl, λ j. let flip : (index == j) ≡ (j == index) = ground arith in rw flip refl))
    | inr g ↦ inl (rw (storage_ensure_extent, storage_find_extent, f, g) (refl, refl))
  ]
]

-- A chunk that is written is written to the medium.
pub chunk_write-medium :
    (got : ℕ → Bool) (offset cursor n : ℕ) (r : Storage) (ram : Bytes)
    → IsChunk offset n
    → ((transfer_chunk true got (offset / 4096) (offset % 4096) cursor n r ram ≡ none)
        × (got (offset / 4096) ≡ false))
      ⊎ ((r' : Storage) × (transfer_chunk true got (offset / 4096) (offset % 4096) cursor n r ram
            ≡ some (r', ram))
          × Keeps r r'
          × ((a : ℕ) → medium r' a ≡ copy (medium r) offset ram cursor n a))
unfolding transfer_chunk medium
chunk_write-medium got offset cursor n r ram h = elim (ensure_lem got (offset / 4096) r) [
  | inl e ↦ inl (rw (transfer_chunk, e.0) refl, e.1)
  | inr e ↦ inr (
    put_chunk (offset / 4096) (offset % 4096) cursor n ram
        (storage_ensure_extent got (offset / 4096) r).1,
    rw (transfer_chunk, e.0) refl,
    ap
        (λ x. put_chunk (offset / 4096) (offset % 4096) cursor n ram (record x {
          extents = (storage_ensure_extent got (offset / 4096) r).1.extents;
          backing_bytes = (storage_ensure_extent got (offset / 4096) r).1.backing_bytes;
        }))
        (ensure-Keeps got (offset / 4096) r),
    λ a.
        let moved =
          Keyed.find-modify extent_key (offset / 4096) (a / 4096)
            (λ x. record x { bytes = copy x.bytes (offset % 4096) ram cursor n })
            (storage_ensure_extent got (offset / 4096) r).1.extents (λ x. refl) in
        chunk_written offset cursor n a ram _ (Keyed.find extent_key (a / 4096) r.extents) h
          (λ g.
            let same : a / 4096 ≡ offset / 4096 = ground arith in
            moved ∙ rw (g, e.1 (offset / 4096), ==_refl (offset / 4096), same) refl)
          (λ g. moved ∙ rw (g, e.1 (a / 4096), g) refl),
  )
]

read_in :
    (offset cursor n i : ℕ) (r : Storage) (ram : Bytes) (o : Option Extent)
    → IsChunk offset n
    → Keyed.find extent_key (offset / 4096) r.extents ≡ o
    → copy ram cursor (byte_in o) (offset % 4096) n i ≡ copy ram cursor (medium r) offset n i
unfolding medium
read_in offset cursor n i r ram o h f = elim (Bool-cases (inside cursor n i)) [
  | inl e ↦
      let d : i - cursor < n = ground arith in
      let index : (offset + (i - cursor)) / 4096 ≡ offset / 4096 = omega arith in
      let place : (offset + (i - cursor)) % 4096 ≡ offset % 4096 + (i - cursor) = omega arith in
      rw (e, index, place, f) refl
  | inr e ↦ rw e refl
]

pub chunk_read-medium :
    (got : ℕ → Bool) (offset cursor n : ℕ) (r : Storage) (ram : Bytes)
    → IsChunk offset n
    → (ram' : Bytes) × (transfer_chunk false got (offset / 4096) (offset % 4096) cursor n r ram
        ≡ some (r, ram'))
      × ((i : ℕ) → ram' i ≡ copy ram cursor (medium r) offset n i)
unfolding transfer_chunk medium storage_find_extent
chunk_read-medium got offset cursor n r ram h =
    elim (Option-cases (Keyed.find extent_key (offset / 4096) r.extents)) [
      | inl f ↦ (
        copy ram cursor (λ _. 0) 0 n,
        rw (transfer_chunk, f) refl,
        λ i. read_in offset cursor n i r ram none h f,
      )
      | inr (e, f) ↦ (
        copy ram cursor e.bytes (offset % 4096) n,
        rw (transfer_chunk, f) refl,
        λ i. read_in offset cursor n i r ram (some e) h f,
      )
    ]
