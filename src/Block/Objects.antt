-- ===== src/Block/Objects.antt =====
-- The objects of src/linux_subsystem/block/block.c as a whole: their end, and the snapshots.
use kobox.Prelude.{Bool, Option, ℕ}
use kobox.Block.State.{Block, DiskState, disk_state_for}
use kobox.Block.Queue.{queue_state_remove}
use kobox.Block.Disk.{disk_state_remove}
use kobox.Block.Tagset.{Tagset, Tagsets, tagset_state_find, tagset_state_for, tagset_state_remove}

-- What calloc returns.
unfoldable pub block_device_alloc : ℕ → ℕ
block_device_alloc device = device

unfoldable pub object_free : ℕ → Block → Block
object_free object b = queue_state_remove object (disk_state_remove object b)

-- The fields of kb_block_disk_snapshot_t are those of the state with the same names; `none` is
-- -EINVAL.
unfoldable pub disk_snapshot : ℕ → Block → Option DiskState
unfolding disk_state_for
disk_snapshot disk b = disk_state_for b disk

pub tagset_free : ℕ → Tagsets → Tagsets
tagset_free tag_set ts = tagset_state_remove tag_set ts

pub tagset_snapshot : ℕ → Tagsets → Option Tagset
tagset_snapshot tag_set ts = tagset_state_find ts tag_set

-- The address of the state's array stands for the state.
pub tagset_array : Bool → ℕ → Tagsets → Option Tagset × Tagsets
tagset_array got_node tag_set ts = tagset_state_for got_node tag_set ts
