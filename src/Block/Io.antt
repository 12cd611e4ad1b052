-- ===== src/Block/Io.antt =====
-- Disk I/O of src/linux_subsystem/block/block.c: range checks, reads, writes, batches, flush.
-- The driver's functions are outside the file: `Driver W` says what a call through a function
-- pointer returns and how it changes the device `W` (media, buffers and all else it may write).
-- They are taken not to call back into the block layer.
pub mod Range
pub mod Effects
pub mod Batch
mod Tests
use kobox.Prelude.{
  Bool, List, Option, [], add64, false, if◌then◌else◌, is_zero, leb, length, ltb, neg, none, not,
  pos, some, true, u64_mod, ℕ, ℤ, ◌%◌, ◌&&◌, ◌*◌, ◌+◌, ◌/=◌, ◌==◌, ◌||◌, ◌∷◌,
}
use kobox.Block.State.{Block, QueueState, DiskState, queue_state_for, disk_state_for, with_disk}

-- kb_block_disk_read_request_t and kb_block_disk_write_request_t
pub record Request : Type 0 where
  pub sector : ℕ
  pub buffer : ℕ
  pub byte_count : ℕ

-- One call through each kind of function pointer; the first number is the pointer.
pub record Driver (W : Type 0) : Type 0 where
  pub read : ℕ → ℕ → Request → W → ℤ × W
  pub read_batch : ℕ → ℕ → List Request → W → ℤ × W
  pub write : ℕ → ℕ → Request → W → ℤ × W
  pub write_batch : ℕ → ℕ → List Request → W → ℤ × W
  pub write_flags : ℕ → ℕ → Request → ℕ → W → ℤ × W
  pub flush : ℕ → ℕ → W → ℤ × W

pub disk_logical_block_size : Block → DiskState → ℕ
disk_logical_block_size b s = elim (queue_state_for b s.queue) [
  | none ↦ 512
  | some q ↦ if q.limits.logical_block_size == 0 then 512 else q.limits.logical_block_size
]

pub disk_io_range_valid : Block → DiskState → ℕ → ℕ → ℤ
disk_io_range_valid b s sector byte_count =
    if byte_count == 0
    then neg 22
    else if leb u64_mod (sector * 512)
    then neg 34
    else if leb u64_mod (sector * 512 + byte_count)
    then neg 34
    else if leb u64_mod (s.capacity_sectors * 512)
    then neg 34
    else if ltb (s.capacity_sectors * 512) (sector * 512 + byte_count)
    then neg 34
    else if (sector * 512) % disk_logical_block_size b s /= 0
    then neg 22
    else if byte_count % disk_logical_block_size b s /= 0
    then neg 22
    else pos 0

-- `dead || !registered`
abbrev pub is_gone : DiskState → Bool
is_gone s = s.dead /= 0 || s.registered == 0

-- The checks over a batch before any driver call.
pub requests_valid : Block → DiskState → List Request → Bool
requests_valid b s [] = true
requests_valid b s (r ∷ rs) =
    if r.buffer == 0
    then false
    else (is_zero (disk_io_range_valid b s r.sector r.byte_count) && requests_valid b s rs)

pub total_bytes : ℕ → List Request → ℕ
total_bytes acc [] = acc
total_bytes acc (r ∷ rs) = total_bytes (add64 acc r.byte_count) rs

abbrev pub account_read : ℕ → ℕ → DiskState → DiskState
account_read count bytes s = record s { read_count = add64 s.read_count count; bytes_read = bytes }

abbrev pub account_write : ℕ → ℕ → DiskState → DiskState
account_write count bytes s = record s {
  write_count = add64 s.write_count count;
  bytes_written = bytes;
}

module _ {W : Type 0} (d : Driver W) where
  -- What follows `int result = ...`: the counters, if the driver reported success.
  abbrev finish : ℕ → (DiskState → DiskState) → Block → ℤ × W → ℤ × Block × W
  finish disk f b r = (r.0, (if is_zero r.0 then with_disk disk f b else b), r.1)

  pub disk_read : ℕ → Request → Block → W → ℤ × Block × W
  disk_read disk r b w = elim (disk_state_for b disk) [
    | none ↦ (neg 22, b, w)
    | some s ↦
        if r.buffer == 0
        then (neg 22, b, w)
        else if is_gone s
        then (neg 19, b, w)
        else if is_zero (disk_io_range_valid b s r.sector r.byte_count)
        then (if s.read_fn == 0
            then (neg 95, b, w)
            else finish disk (λ t. account_read 1 (add64 t.bytes_read r.byte_count) t) b
                (d.read s.read_fn s.io_ctx r w))
        else (disk_io_range_valid b s r.sector r.byte_count, b, w)
  ]

  -- The loop of the batch without a batch function; it stops at the first error.
  pub read_each : DiskState → List Request → W → ℤ × W
  read_each s [] w = (pos 0, w)
  read_each s (r ∷ rs) w =
      let first = if s.read_fn == 0 then (neg 95, w) else d.read s.read_fn s.io_ctx r w in
      let rest = read_each s rs first.1 in if is_zero first.0 then rest else first

  -- `none` is `requests == NULL`.
  pub disk_read_batch : ℕ → Option (List Request) → Block → W → ℤ × Block × W
  disk_read_batch disk none b w = (neg 22, b, w)
  disk_read_batch disk (some rs) b w = elim (disk_state_for b disk) [
    | none ↦ (neg 22, b, w)
    | some s ↦
        if length rs == 0
        then (neg 22, b, w)
        else if is_gone s
        then (neg 19, b, w)
        else if not (requests_valid b s rs)
        then (neg 22, b, w)
        else finish disk (λ t. account_read (length rs) (total_bytes t.bytes_read rs) t) b
            (if s.read_batch_fn /= 0
              then d.read_batch s.read_batch_fn s.io_ctx rs w
              else read_each s rs w)
  ]

  -- The driver calls of a single write: KB_BLOCK_DISK_WRITE_FUA, bit 0, asks for a flush where
  -- the driver has no write_flags function. `flags & ~FUA` is 0 iff `flags` is at most 1.
  pub write_through : DiskState → Request → ℕ → W → ℤ × W
  write_through s r flags w =
      if s.write_flags_fn /= 0
      then d.write_flags s.write_flags_fn s.io_ctx r flags w
      else let written = d.write s.write_fn s.io_ctx r w in
        if is_zero written.0 && flags /= 0
        then (if s.flush_fn == 0
            then (neg 95, written.1)
            else d.flush s.flush_fn s.io_ctx written.1)
        else written

  pub disk_write_flags : ℕ → Request → ℕ → Block → W → ℤ × Block × W
  unfolding write_through
  disk_write_flags disk r flags b w = elim (disk_state_for b disk) [
    | none ↦ (neg 22, b, w)
    | some s ↦
        if r.buffer == 0
        then (neg 22, b, w)
        else if is_gone s
        then (neg 19, b, w)
        else if s.read_only /= 0
        then (neg 30, b, w)
        else if is_zero (disk_io_range_valid b s r.sector r.byte_count)
        then (if ltb 1 flags || (s.write_fn == 0 && s.write_flags_fn == 0)
            then (neg 95, b, w)
            else finish disk (λ t. account_write 1 (add64 t.bytes_written r.byte_count) t) b
                (write_through s r flags w))
        else (disk_io_range_valid b s r.sector r.byte_count, b, w)
  ]

  pub disk_write : ℕ → Request → Block → W → ℤ × Block × W
  disk_write disk r = disk_write_flags disk r 0

  pub write_each : DiskState → List Request → W → ℤ × W
  write_each s [] w = (pos 0, w)
  write_each s (r ∷ rs) w =
      let first = if s.write_fn == 0 then (neg 95, w) else d.write s.write_fn s.io_ctx r w in
      let rest = write_each s rs first.1 in if is_zero first.0 then rest else first

  pub disk_write_batch : ℕ → Option (List Request) → Block → W → ℤ × Block × W
  disk_write_batch disk none b w = (neg 22, b, w)
  disk_write_batch disk (some rs) b w = elim (disk_state_for b disk) [
    | none ↦ (neg 22, b, w)
    | some s ↦
        if length rs == 0
        then (neg 22, b, w)
        else if is_gone s
        then (neg 19, b, w)
        else if s.read_only /= 0
        then (neg 30, b, w)
        else if not (requests_valid b s rs)
        then (neg 22, b, w)
        else finish disk (λ t. account_write (length rs) (total_bytes t.bytes_written rs) t) b
            (if s.write_batch_fn /= 0
              then d.write_batch s.write_batch_fn s.io_ctx rs w
              else write_each s rs w)
  ]

  pub disk_flush : ℕ → Block → W → ℤ × W
  disk_flush disk b w = elim (disk_state_for b disk) [
    | none ↦ (neg 22, w)
    | some s ↦
        if is_gone s
        then (neg 19, w)
        else if s.flush_fn == 0
        then (pos 0, w)
        else d.flush s.flush_fn s.io_ctx w
  ]
