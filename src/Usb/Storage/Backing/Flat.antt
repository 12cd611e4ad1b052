-- ===== src/Usb/Storage/Backing/Flat.antt =====
-- The transfers of src/linux_subsystem/usb/storage.c on the flat run of bytes.
use kobox.Prelude.{
  Bool, Bool-cases, add64, ap, arith, false, inl, inr, mul64, neg, none, pos, refl, some, suc, true,
  u64_mod, zero, ℕ, ℤ, ◌%◌, ◌+◌, ◌-◌, ◌/◌, ◌<◌, ◌==◌, ◌∙◌, ◌≡◌, ◌≢◌, ◌≤◌, ◌⊎◌,
}
use kobox.Usb.Storage.State.{Bytes, Storage, copy}
use kobox.Usb.Storage.Backing.{
  transfer_chunk, chunk_of, transfer_loop, sector_size_of, storage_backing_transfer,
}
use kobox.Usb.Storage.Backing.Chunk.{
  medium, inside, chunk_of_lem, copy-copy, Keeps, Keeps-trans, chunk_write-medium,
  chunk_read-medium,
}

-- What a transfer of at most `n` bytes leaves: a write changes the medium alone, up to the chunk that
-- no extent was made for; a read changes memory alone.
abbrev pub Transfers :
    Bool → (ℕ → Bool) → ℕ → ℕ → ℕ → Storage → Bytes → ℤ × Storage × Bytes → Type 0
Transfers true got offset cursor n r ram t =
    (k : ℕ) × (((t.0 ≡ pos 0) × (k ≡ n)) ⊎ ((t.0 ≡ neg 12) × (k < n) × ((i : ℕ) × (got i ≡ false))))
    × (t.2 ≡ ram)
    × Keeps r t.1
    × ((a : ℕ) → medium t.1 a ≡ copy (medium r) offset ram cursor k a)
Transfers false got offset cursor n r ram t =
    (t.0 ≡ pos 0) × (t.1 ≡ r) × ((i : ℕ) → t.2 i ≡ copy ram cursor (medium r) offset n i)

copy_none : (to from : Bytes) (at start i : ℕ) → to i ≡ copy to at from start 0 i
copy_none to from at start i =
    let none_inside : inside at 0 i ≡ false = ground arith in rw none_inside refl

Transfers-none :
    (write : Bool) (got : ℕ → Bool) (offset cursor n : ℕ) (r : Storage) (ram : Bytes)
    → (n == 0) ≡ true
    → Transfers write got offset cursor n r ram (pos 0, r, ram)
Transfers-none true got offset cursor n r ram h =
    (0, inl (refl, ground arith), refl, refl, λ a. copy_none (medium r) ram offset cursor a)
Transfers-none false got offset cursor n r ram h =
    let nothing : n ≡ 0 = ground arith in
    rw nothing (refl, refl, λ i. copy_none ram (medium r) cursor offset i)

-- One round of the loop.
loop_failed :
    (fuel : ℕ) (write : Bool) (got : ℕ → Bool) (offset cursor n : ℕ) (r : Storage) (ram : Bytes)
    → (n == 0) ≡ false
    → transfer_chunk write got (offset / 4096) (offset % 4096) cursor (chunk_of offset n) r ram
      ≡ none
    → transfer_loop (suc fuel) write got offset cursor n r ram ≡ some (neg 12, r, ram)
unfolding transfer_loop
loop_failed fuel write got offset cursor n r ram e w = rw (transfer_loop, e, w) refl

loop_round :
    (fuel : ℕ) (write : Bool) (got : ℕ → Bool) (offset cursor n : ℕ) (r r' : Storage)
    (ram ram' : Bytes)
    → (n == 0) ≡ false
    → offset + n < u64_mod
    → chunk_of offset n ≤ n
    → transfer_chunk write got (offset / 4096) (offset % 4096) cursor (chunk_of offset n) r ram
      ≡ some (r', ram')
    → transfer_loop (suc fuel) write got offset cursor n r ram
      ≡ transfer_loop fuel write got
          (offset + chunk_of offset n)
          (cursor + chunk_of offset n)
          (n - chunk_of offset n)
          r'
          ram'
unfolding transfer_loop
loop_round fuel write got offset cursor n r r' ram ram' e b c w =
    let next : add64 offset (chunk_of offset n) ≡ offset + chunk_of offset n = omega arith in
    rw (transfer_loop, e, w, next) refl

write_more :
    (got : ℕ → Bool) (offset cursor c n : ℕ) (r r' : Storage) (ram : Bytes)
    (t : ℤ × Storage × Bytes)
    → c ≤ n
    → Keeps r r'
    → ((a : ℕ) → medium r' a ≡ copy (medium r) offset ram cursor c a)
    → Transfers true got (offset + c) (cursor + c) (n - c) r' ram t
    → Transfers true got offset cursor n r ram t
write_more got offset cursor c n r r' ram t h kept m (k, s, keeps, kept', w) = (
  c + k,
  (elim s [ inl (z, l) ↦ inl (z, omega arith) | inr (z, l, g) ↦ inr (z, omega arith, g) ]),
  keeps,
  Keeps-trans r r' t.1 kept kept',
  λ a. w a ∙ copy-copy (medium r) (medium r') ram offset cursor c k a (m a),
)

write_loop :
    (fuel : ℕ) (got : ℕ → Bool) (offset cursor n : ℕ) (r : Storage) (ram : Bytes)
    → n ≤ fuel
    → offset + n < u64_mod
    → (t : ℤ × Storage × Bytes) × (transfer_loop fuel true got offset cursor n r ram ≡ some t)
      × Transfers true got offset cursor n r ram t
unfolding transfer_loop
write_loop zero got offset cursor n r ram h b =
    let nothing : (n == 0) ≡ true = ground arith in
    (_, rw nothing refl, Transfers-none true got offset cursor n r ram nothing)
write_loop (suc fuel) got offset cursor n r ram h b = elim (Bool-cases (n == 0)) [
  | inl e ↦ (_, rw e refl, Transfers-none true got offset cursor n r ram e)
  | inr e ↦
      let c = chunk_of_lem offset n e in
      elim (chunk_write-medium got offset cursor (chunk_of offset n) r ram c.0) [
        | inl (w, g) ↦ (
          (neg 12, r, ram),
          loop_failed fuel true got offset cursor n r ram e w,
          (
            0,
            inr (refl, ground arith, (offset / 4096, g)),
            refl,
            refl,
            λ a. copy_none (medium r) ram offset cursor a,
          ),
        )
        | inr (r', w, kept, m) ↦
            let rest =
              write_loop fuel got (offset + chunk_of offset n) (cursor + chunk_of offset n)
                (n - chunk_of offset n) r' ram (omega arith) (omega arith) in
            (
              rest.0,
              loop_round fuel true got offset cursor n r r' ram ram e b c.2 w ∙ rest.1,
              write_more got offset cursor (chunk_of offset n) n r r' ram rest.0 c.2 kept m rest.2,
            )
      ]
]

read_loop :
    (fuel : ℕ) (got : ℕ → Bool) (offset cursor n : ℕ) (r : Storage) (ram : Bytes)
    → n ≤ fuel
    → offset + n < u64_mod
    → (t : ℤ × Storage × Bytes) × (transfer_loop fuel false got offset cursor n r ram ≡ some t)
      × Transfers false got offset cursor n r ram t
unfolding transfer_loop
read_loop zero got offset cursor n r ram h b =
    let nothing : (n == 0) ≡ true = ground arith in
    (_, rw nothing refl, Transfers-none false got offset cursor n r ram nothing)
read_loop (suc fuel) got offset cursor n r ram h b = elim (Bool-cases (n == 0)) [
  | inl e ↦ (_, rw e refl, Transfers-none false got offset cursor n r ram e)
  | inr e ↦
      let c = chunk_of_lem offset n e in
      let w = chunk_read-medium got offset cursor (chunk_of offset n) r ram c.0 in
      let rest =
        read_loop fuel got (offset + chunk_of offset n) (cursor + chunk_of offset n)
          (n - chunk_of offset n) r w.0 (omega arith) (omega arith) in
      (
        rest.0,
        loop_round fuel false got offset cursor n r r ram w.0 e b c.2 w.1 ∙ rest.1,
        (
          rest.2.0,
          rest.2.1,
          λ i.
              let whole : chunk_of offset n + (n - chunk_of offset n) ≡ n = omega arith in
              rest.2.2 i
              ∙ copy-copy ram w.0 (medium r) cursor offset (chunk_of offset n)
                  (n - chunk_of offset n) i (w.2 i)
              ∙ ap (λ k. copy ram cursor (medium r) offset k i) whole,
        ),
      )
]

transfer_loop-Transfers :
    (fuel : ℕ) (write : Bool) (got : ℕ → Bool) (offset cursor n : ℕ) (r : Storage) (ram : Bytes)
    → n ≤ fuel
    → offset + n < u64_mod
    → (t : ℤ × Storage × Bytes) × (transfer_loop fuel write got offset cursor n r ram ≡ some t)
      × Transfers write got offset cursor n r ram t
transfer_loop-Transfers fuel true = write_loop fuel
transfer_loop-Transfers fuel false = read_loop fuel

-- The medium is one flat run of bytes: a transfer from a sector, of bytes that end below 2^64, takes
-- no more rounds than bytes. A read answers 0, changes nothing but memory, and puts the medium's
-- bytes there, 0 where nothing was written. A write changes no memory, and only the medium's
-- bytes that it is given for: all of them and the answer 0, or, if an extent cannot be allocated,
-- the first ones and -ENOMEM.
pub storage_backing_transfer-Transfers :
    (write : Bool) (got : ℕ → Bool) (sector buffer n : ℕ) (r : Storage) (ram : Bytes)
    → buffer ≢ 0
    → n ≢ 0
    → mul64 sector (sector_size_of r) + n < u64_mod
    → (t : ℤ × Storage × Bytes) × (storage_backing_transfer write got sector buffer n r ram
        ≡ some t)
      × Transfers write got (mul64 sector (sector_size_of r)) buffer n r ram t
unfolding storage_backing_transfer
storage_backing_transfer-Transfers write got sector buffer n r ram p q b =
    let p' : (buffer == 0) ≡ false = ground arith in
    let q' : (n == 0) ≡ false = ground arith in
    rw (storage_backing_transfer, p', q')
      (transfer_loop-Transfers n write got (mul64 sector (sector_size_of r)) buffer n r ram
        (omega arith) b)
