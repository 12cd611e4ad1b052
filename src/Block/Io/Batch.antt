-- ===== src/Block/Io/Batch.antt =====
-- The read batch of src/linux_subsystem/block/block.c against single reads.
use kobox.Prelude.{
  Bool-cases, List, [], add64, ap, arith, false, if◌then◌else◌, inl, inr, is_zero, length, neg, pos,
  refl, some, true, ℕ, ℤ, ◌∙◌, ◌∷◌, ◌≡◌, ◌⊎◌,
}
use kobox.Block.State.{Block, DiskState, disk_state_for, with_disk}
use kobox.Block.State.Laws.{
  disk_state_for-with_disk, queue_state_for-with_disk, with_disk-with_disk,
}
use kobox.Block.Io.Range.{InRange, InRange-of_zero}
use kobox.Block.Io.{
  Request, Driver, is_gone, account_read, disk_io_range_valid, disk_logical_block_size,
  requests_valid, total_bytes, disk_read, disk_read_batch, read_each,
}

-- What one successful read writes to the disk's counters.
abbrev after_read : Request → DiskState → DiskState
after_read r s = account_read 1 (add64 s.bytes_read r.byte_count) s

abbrev after_reads : List Request → DiskState → DiskState
after_reads rs s = account_read (length rs) (total_bytes s.bytes_read rs) s

after_reads-cons :
    (r : Request) (rs : List Request) (s : DiskState)
    → after_reads rs (after_read r s) ≡ after_reads (r ∷ rs) s
unfolding total_bytes
after_reads-cons r rs s =
    ap
      (λ n. record s {
        read_count = n;
        bytes_read = total_bytes (add64 s.bytes_read r.byte_count) rs;
      })
      (omega arith)

logical_block_size-after :
    (b : Block) (disk : ℕ) (r : Request) (s : DiskState)
    → disk_logical_block_size (with_disk disk (after_read r) b) (after_read r s)
      ≡ disk_logical_block_size b s
unfolding disk_logical_block_size
logical_block_size-after b disk r s =
    rw (queue_state_for-with_disk disk (after_read r) b s.queue, disk_logical_block_size)

range-after :
    (b : Block) (disk : ℕ) (r : Request) (s : DiskState) (sector count : ℕ)
    → disk_io_range_valid (with_disk disk (after_read r) b) (after_read r s) sector count
      ≡ disk_io_range_valid b s sector count
unfolding disk_io_range_valid
range-after b disk r s sector count = rw (logical_block_size-after b disk r s)

requests_valid-after :
    (b : Block) (disk : ℕ) (r : Request) (s : DiskState) (rs : List Request)
    → requests_valid (with_disk disk (after_read r) b) (after_read r s) rs ≡ requests_valid b s rs
unfolding requests_valid
requests_valid-after b disk r s [] = refl
requests_valid-after b disk r s (q ∷ rs) =
    rw (range-after b disk r s q.sector q.byte_count, requests_valid-after b disk r s rs)

-- Some request has no buffer or is not in range.
abbrev pub AnyBad : Block → DiskState → List Request → Type 0
AnyBad b s [] = ⊥
AnyBad b s (r ∷ rs) = (r.buffer ≡ 0) ⊎ (¬ InRange b s r.sector r.byte_count) ⊎ AnyBad b s rs

bad_head :
    (b : Block) (s : DiskState) (r : Request)
    → ¬ InRange b s r.sector r.byte_count
    → is_zero (disk_io_range_valid b s r.sector r.byte_count) ≡ false
bad_head b s r h = elim (Bool-cases (is_zero (disk_io_range_valid b s r.sector r.byte_count))) [
  | inl e ↦ absurd (h (InRange-of_zero b s r.sector r.byte_count e))
  | inr e ↦ e
]

AnyBad-requests_valid :
    (b : Block) (s : DiskState) (rs : List Request) → AnyBad b s rs → requests_valid b s rs ≡ false
unfolding requests_valid
AnyBad-requests_valid b s [] h = absurd h
AnyBad-requests_valid b s (r ∷ rs) (inl h) = ground arith
AnyBad-requests_valid b s (r ∷ rs) (inr (inl h)) = ground (arith, bad_head b s r h)
AnyBad-requests_valid b s (r ∷ rs) (inr (inr h)) = ground (arith, AnyBad-requests_valid b s rs h)

module _ {W : Type 0} (d : Driver W) (disk : ℕ) where
  read_each-after :
      (r : Request) (s : DiskState) (rs : List Request) (w : W)
      → read_each d (after_read r s) rs w ≡ read_each d s rs w
  unfolding read_each
  read_each-after r s [] w = refl
  read_each-after r s (q ∷ rs) w = rw (read_each-after r s rs)

  -- Single reads in order, until one fails.
  pub disk_read_all : List Request → Block → W → ℤ × Block × W
  disk_read_all [] b w = (pos 0, b, w)
  disk_read_all (r ∷ rs) b w =
      let first = disk_read d disk r b w in
      let rest = disk_read_all rs first.1 first.2 in if is_zero first.0 then rest else first

  -- One step of the loop: the head was read, and the rest of the loop returned 0.
  read_head :
      (s : DiskState) (r : Request) (rs : List Request) (b : Block) (w : W) {w' : W}
      → disk_state_for b disk ≡ some s
      → is_gone s ≡ false
      → requests_valid b s (r ∷ rs) ≡ true
      → read_each d s (r ∷ rs) w ≡ (pos 0, w')
      → (u : W) × (disk_read d disk r b w ≡ (pos 0, with_disk disk (after_read r) b, u))
        × (read_each d s rs u ≡ (pos 0, w'))
        × (requests_valid b s rs ≡ true)
  unfolding read_each disk_read requests_valid
  read_head s r rs b w {w'} e p v h =
      ((d.read s.read_fn s.io_ctx r w).1, ground arith, ground arith, ground arith)

  disk_read_all_lem :
      (r : Request) (rs : List Request) (s : DiskState) (b : Block) (w : W) {w' : W}
      → disk_state_for b disk ≡ some s
      → is_gone s ≡ false
      → requests_valid b s (r ∷ rs) ≡ true
      → read_each d s (r ∷ rs) w ≡ (pos 0, w')
      → disk_read_all (r ∷ rs) b w ≡ (pos 0, with_disk disk (after_reads (r ∷ rs)) b, w')
  unfolding disk_read_all total_bytes
  disk_read_all_lem r [] s b w {w'} e p v h =
      let (u, read, rest, valid) = read_head s r [] b w e p v h in
      rw read (unfold read_each in ground arith)
  disk_read_all_lem r (q ∷ rs) s b w {w'} e p v h =
      let (u, read, rest, valid) = read_head s r (q ∷ rs) b w e p v h in
      let b' = with_disk disk (after_read r) b in
      let found : disk_state_for b' disk ≡ some (after_read r s) =
        disk_state_for-with_disk disk (after_read r) b (λ t. refl) ∙ rw e in
      let ih =
        disk_read_all_lem q rs (after_read r s) b' u {w' = w'} found p
          (requests_valid-after b disk r s (q ∷ rs) ∙ valid)
          (read_each-after r s (q ∷ rs) u ∙ rest) in
      rw (read, ih)
        (ap (λ c. (pos 0, c, w'))
          (with_disk-with_disk disk (after_read r) (after_reads (q ∷ rs)) (after_reads (r ∷ q ∷ rs))
            b (λ t. refl) (after_reads-cons r (q ∷ rs))))

  -- Where the disk's driver has no batch function, a batch of reads that returns 0 leaves the
  -- block layer and the device exactly as the same reads made one by one, all of which return 0.
  pub disk_read_batch_all :
      (rs : List Request) (s : DiskState) (b : Block) (w : W) {b' : Block} {w' : W}
      → disk_state_for b disk ≡ some s
      → s.read_batch_fn ≡ 0
      → disk_read_batch d disk (some rs) b w ≡ (pos 0, b', w')
      → disk_read_all rs b w ≡ (pos 0, b', w')
  unfolding disk_read_batch
  disk_read_batch_all [] s b w e n h = absurd (ground arith)
  disk_read_batch_all (r ∷ rs) s b w {b'} {w'} e n h =
      disk_read_all_lem r rs s b w {w' = w'} e (ground arith) (ground arith) (ground arith)
      ∙ ground arith

  -- A batch with a request that has no buffer, or whose range the disk does not have, is refused
  -- as a whole: it returns -EINVAL or -ENODEV, no driver function is called, and nothing is
  -- counted.
  disk_read_batch_refused :
      (rs : List Request) (s : DiskState) (b : Block) (w : W)
      → disk_state_for b disk ≡ some s
      → AnyBad b s rs
      → ((disk_read_batch d disk (some rs) b w ≡ (neg 22, b, w))
          ⊎ (disk_read_batch d disk (some rs) b w ≡ (neg 19, b, w)))
  unfolding disk_read_batch
  disk_read_batch_refused rs s b w e bad = ground (arith, AnyBad-requests_valid b s rs bad)
