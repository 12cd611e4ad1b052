-- ===== src/Usb/Storage/Backing.antt =====
-- The backing store of src/linux_subsystem/usb/storage.c: extents of 4096 bytes, made when they are
-- first written.
pub mod Chunk
pub mod Flat
pub mod Readback
use kobox.Prelude.{
  Bool, Option, [], add64, false, if◌then◌else◌, is_zero, ltb, mul64, neg, none, pos, some, suc,
  true, zero, ℕ, ℤ, ◌%◌, ◌+◌, ◌-◌, ◌/◌, ◌==◌, ◌||◌, ◌∷◌,
}
use kobox.Keyed
use kobox.Usb.Storage.State.{Bytes, Extent, Storage, copy}

abbrev pub extent_key : Extent → ℕ
extent_key e = e.index

pub storage_release_backing : Storage → Storage
storage_release_backing r = record r { extents = []; backing_bytes = 0 }

pub storage_find_extent : ℕ → Storage → Option Extent
storage_find_extent index r = Keyed.find extent_key index r.extents

-- `got` says for which indices the allocation succeeds. Whether there is an extent now.
pub storage_ensure_extent : (ℕ → Bool) → ℕ → Storage → Bool × Storage
unfolding storage_find_extent
storage_ensure_extent got index r = elim (storage_find_extent index r) [
  | some _ ↦ (true, r)
  | none ↦
      if got index
      then (
        true,
        record r {
          extents = record { index = index; bytes = λ _. 0 } ∷ r.extents;
          backing_bytes = add64 r.backing_bytes 4096;
        },
      )
      else (false, r)
]

-- What is written through the pointer to an extent.
abbrev pub put_chunk : ℕ → ℕ → ℕ → ℕ → Bytes → Storage → Storage
put_chunk index at cursor n ram r = record r {
  extents =
      Keyed.modify extent_key index (λ e. record e { bytes = copy e.bytes at ram cursor n })
        r.extents;
}

-- One chunk of `n` bytes, at an offset in an extent: `none` where no extent can be made.
pub transfer_chunk : Bool → (ℕ → Bool) → ℕ → ℕ → ℕ → ℕ → Storage → Bytes → Option (Storage × Bytes)
unfolding storage_ensure_extent storage_find_extent
transfer_chunk true got index at cursor n r ram =
    let made = storage_ensure_extent got index r in
    if made.0 then some (put_chunk index at cursor n ram made.1, ram) else none
transfer_chunk false got index at cursor n r ram = elim (storage_find_extent index r) [
  | none ↦ some (r, copy ram cursor (λ _. 0) 0 n)
  | some e ↦ some (r, copy ram cursor e.bytes at n)
]

abbrev pub chunk_of : ℕ → ℕ → ℕ
chunk_of offset remaining =
    let chunk = 4096 - offset % 4096 in if ltb remaining chunk then remaining else chunk

-- The loop, which runs at most once for each byte: `none` when the fuel is used up.
pub transfer_loop :
    ℕ → Bool → (ℕ → Bool) → ℕ → ℕ → ℕ → Storage → Bytes → Option (ℤ × Storage × Bytes)
unfolding transfer_chunk
transfer_loop zero write got offset cursor remaining r ram =
    if remaining == 0 then some (pos 0, r, ram) else none
transfer_loop (suc fuel) write got offset cursor remaining r ram =
    if remaining == 0
    then some (pos 0, r, ram)
    else let chunk = chunk_of offset remaining in
      elim (transfer_chunk write got (offset / 4096) (offset % 4096) cursor chunk r ram) [
        | none ↦ some (neg 12, r, ram)
        | some next ↦
            transfer_loop fuel write got (add64 offset chunk) (cursor + chunk) (remaining - chunk)
              next.0 next.1
      ]

abbrev pub sector_size_of : Storage → ℕ
sector_size_of r = if r.sector_size == 0 then 512 else r.sector_size

-- The record is one of the table, so not NULL.
pub storage_backing_transfer :
    Bool → (ℕ → Bool) → ℕ → ℕ → ℕ → Storage → Bytes → Option (ℤ × Storage × Bytes)
unfolding transfer_loop
storage_backing_transfer write got sector buffer byte_count r ram =
    if buffer == 0 || byte_count == 0
    then some (neg 22, r, ram)
    else transfer_loop byte_count write got (mul64 sector (sector_size_of r)) buffer byte_count r
        ram

abbrev pub count_read : ℕ → Storage → Storage
count_read n r = record r { read_count = add64 r.read_count 1; bytes_read = add64 r.bytes_read n }

abbrev pub count_written : ℕ → Storage → Storage
count_written n r = record r {
  write_count = add64 r.write_count 1;
  bytes_written = add64 r.bytes_written n;
}

abbrev pub counted : (Storage → Storage) → ℤ × Storage × Bytes → ℤ × Storage × Bytes
counted f t = (t.0, (if is_zero t.0 then f t.1 else t.1), t.2)

pub storage_block_read : ℕ → ℕ → ℕ → Storage → Bytes → Option (ℤ × Storage × Bytes)
unfolding storage_backing_transfer
storage_block_read sector buffer n r ram =
    elim (storage_backing_transfer false (λ _. true) sector buffer n r ram) [
      | none ↦ none
      | some t ↦ some (counted (count_read n) t)
    ]

pub storage_block_write : (ℕ → Bool) → ℕ → ℕ → ℕ → Storage → Bytes → Option (ℤ × Storage × Bytes)
unfolding storage_backing_transfer
storage_block_write got sector buffer n r ram =
    elim (storage_backing_transfer true got sector buffer n r ram) [
      | none ↦ none
      | some t ↦ some (counted (count_written n) t)
    ]
