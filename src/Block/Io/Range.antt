-- ===== src/Block/Io/Range.antt =====
-- disk_io_range_valid of src/linux_subsystem/block/block.c.
use kobox.Prelude.{arith, is_zero, pos, true, u64_mod, ℕ, ◌%◌, ◌*◌, ◌+◌, ◌<◌, ◌↔◌, ◌≡◌, ◌≤◌}
use kobox.Block.State.{Block, DiskState}
use kobox.Block.Io.{disk_logical_block_size, disk_io_range_valid}

-- The bytes of the request lie on the disk, in whole logical blocks, and no byte offset wraps.
pub record InRange (b : Block) (s : DiskState) (sector : ℕ) (byte_count : ℕ) : Type 0 where
  pub some_bytes : 0 < byte_count
  pub on_disk : sector * 512 + byte_count ≤ s.capacity_sectors * 512
  pub no_wrap : s.capacity_sectors * 512 < u64_mod
  pub start_aligned : (sector * 512) % disk_logical_block_size b s ≡ 0
  pub size_aligned : byte_count % disk_logical_block_size b s ≡ 0

-- disk_io_range_valid returns 0 exactly for a nonempty range that lies within the disk's
-- capacity, with no wrap of a 64-bit byte offset, and starts and ends at multiples of the
-- logical block size of the disk's queue.
pub disk_io_range_valid_iff :
    (b : Block) (s : DiskState) (sector byte_count : ℕ)
    → (disk_io_range_valid b s sector byte_count ≡ pos 0) ↔ InRange b s sector byte_count
unfolding disk_io_range_valid
disk_io_range_valid_iff b s sector byte_count = (λ h. ground arith, λ v. ground arith)

pub InRange-of_zero :
    (b : Block) (s : DiskState) (sector byte_count : ℕ)
    → is_zero (disk_io_range_valid b s sector byte_count) ≡ true
    → InRange b s sector byte_count
unfolding disk_io_range_valid
InRange-of_zero b s sector byte_count h = ground arith

pub disk_logical_block_size_pos : (b : Block) (s : DiskState) → 0 < disk_logical_block_size b s
unfolding disk_logical_block_size
disk_logical_block_size_pos b s = ground arith
