-- ===== src/Usb/Storage/Backing/Readback.antt =====
-- What src/linux_subsystem/usb/storage.c reads after a write.
use kobox.Prelude.{
  ap, arith, false, inl, inr, mul64, pos, refl, some, true, u64_mod, ℕ, ℤ, ◌+◌, ◌-◌, ◌<◌, ◌∙◌, ◌≡◌,
  ◌≢◌,
}
use kobox.Usb.Storage.State.{Bytes, Storage, copy}
use kobox.Usb.Storage.Backing.{sector_size_of, storage_backing_transfer}
use kobox.Usb.Storage.Backing.Chunk.{medium, inside}
use kobox.Usb.Storage.Backing.Flat.{Transfers, storage_backing_transfer-Transfers}

-- A byte of the range that is copied.
copy_lem :
    (to from : Bytes) (at start n i : ℕ)
    → i < n
    → copy to at from start n (at + i) ≡ from (start + i)
copy_lem to from at start n i h =
    let there : inside at n (at + i) ≡ true = ground arith in
    let place : at + i - at ≡ i = omega arith in rw (there, place) refl

-- A write that is done, where every extent can be allocated.
write_done :
    (offset cursor n : ℕ) (r : Storage) (ram : Bytes) (t : ℤ × Storage × Bytes)
    → Transfers true (λ _. true) offset cursor n r ram t
    → (t.0 ≡ pos 0)
      × (sector_size_of t.1 ≡ sector_size_of r)
      × ((a : ℕ) → medium t.1 a ≡ copy (medium r) offset ram cursor n a)
write_done offset cursor n r ram t (k, inl (z, same), keeps, kept, w) =
    (z, ap sector_size_of kept, λ a. w a ∙ ap (λ x. copy (medium r) offset ram cursor x a) same)
write_done offset cursor n r ram t (k, inr (z, l, (i, g)), keeps, kept, w) = absurd (cc)

-- The bytes that are written from one buffer come back in another, byte by byte, both answers being
-- 0: for a range that ends below 2^64, where every extent can be allocated.
pub storage_backing_transfer-storage_backing_transfer :
    (sector buffer out n : ℕ) (r : Storage) (ram : Bytes)
    → buffer ≢ 0
    → out ≢ 0
    → n ≢ 0
    → mul64 sector (sector_size_of r) + n < u64_mod
    → (t : ℤ × Storage × Bytes) × (s : ℤ × Storage × Bytes) × (storage_backing_transfer true
          (λ _. true)
          sector
          buffer
          n
          r
          ram
        ≡ some t)
      × (storage_backing_transfer false (λ _. true) sector out n t.1 t.2 ≡ some s)
      × (t.0 ≡ pos 0)
      × (s.0 ≡ pos 0)
      × ((i : ℕ) → i < n → s.2 (out + i) ≡ ram (buffer + i))
storage_backing_transfer-storage_backing_transfer sector buffer out n r ram p p' q b =
    let w = storage_backing_transfer-Transfers true (λ _. true) sector buffer n r ram p q b in
    let offset = mul64 sector (sector_size_of r) in
    let done = write_done offset buffer n r ram w.0 w.2 in
    let fits : mul64 sector (sector_size_of w.0.1) + n < u64_mod = rw done.1 b in
    let s =
      storage_backing_transfer-Transfers false (λ _. true) sector out n w.0.1 w.0.2 p' q fits in
    (
      w.0,
      s.0,
      w.1,
      s.1,
      done.0,
      s.2.0,
      λ i h.
          s.2.2 (out + i)
          ∙ copy_lem w.0.2 (medium w.0.1) out (mul64 sector (sector_size_of w.0.1)) n i h
          ∙ ap (λ x. medium w.0.1 (mul64 sector x + i)) done.1
          ∙ done.2 (offset + i)
          ∙ copy_lem (medium r) ram offset buffer n i h,
    )
