-- ===== src/Block/State.antt =====
-- The state of src/linux_subsystem/block/block.c: kb_block_queue_limits_t, the structs of its
-- lists, and the searches. Pointers are numbers and NULL is 0; a function pointer is the number
-- by which a driver is asked. The tag sets are a state of their own, in Tagset.
pub mod Laws
use kobox.Prelude.{List, Option, [], if◌then◌else◌, none, ℕ, ◌==◌}
use kobox.Keyed

-- kb_block_queue_limits_t
pub record Limits : Type 0 where
  pub logical_block_size : ℕ
  pub physical_block_size : ℕ
  pub io_min : ℕ
  pub io_opt : ℕ
  pub max_hw_sectors : ℕ
  pub max_segments : ℕ
  pub max_discard_sectors : ℕ
  pub max_discard_segments : ℕ
  pub max_write_zeroes_sectors : ℕ
  pub max_zone_append_sectors : ℕ
  pub chunk_sectors : ℕ
  pub dma_alignment : ℕ
  pub virt_boundary_mask : ℕ
  pub flags : ℕ
  pub write_cache : ℕ
  pub fua : ℕ

-- kb_block_queue_state_t
pub record QueueState : Type 0 where
  pub queue : ℕ
  pub tag_set : ℕ
  pub limits : Limits
  pub put_count : ℕ
  pub destroy_count : ℕ

-- kb_block_disk_state_t
pub record DiskState : Type 0 where
  pub disk : ℕ
  pub queue : ℕ
  pub part0 : ℕ
  pub parent : ℕ
  pub groups : ℕ
  pub capacity_sectors : ℕ
  pub disk_number : ℕ
  pub registered : ℕ
  pub read_only : ℕ
  pub notify_count : ℕ
  pub put_count : ℕ
  pub dead : ℕ
  pub zoned_model : ℕ
  pub readahead_update_count : ℕ
  pub zone_revalidate_count : ℕ
  pub io_ctx : ℕ
  pub read_fn : ℕ
  pub read_batch_fn : ℕ
  pub write_fn : ℕ
  pub write_batch_fn : ℕ
  pub write_flags_fn : ℕ
  pub flush_fn : ℕ
  pub read_count : ℕ
  pub write_count : ℕ
  pub bytes_read : ℕ
  pub bytes_written : ℕ

-- The file's static variables. `object_tag_set` is the first word of an object in memory, the
-- field of kb_block_queue_t.
pub record Block : Type 0 where
  pub queues : List QueueState
  pub disks : List DiskState
  pub next_disk_number : ℕ
  pub object_tag_set : ℕ → ℕ

abbrev pub initial : Block
initial = record { queues = []; disks = []; next_disk_number = 1; object_tag_set = λ p. 0 }

abbrev pub queue_key : QueueState → ℕ
queue_key s = s.queue

abbrev pub disk_key : DiskState → ℕ
disk_key s = s.disk

unfoldable pub queue_state_for : Block → ℕ → Option QueueState
queue_state_for b queue = if queue == 0 then none else Keyed.find queue_key queue b.queues

unfoldable pub disk_state_for : Block → ℕ → Option DiskState
disk_state_for b disk = if disk == 0 then none else Keyed.find disk_key disk b.disks

-- `state = queue_state_for(queue); if (state != NULL) { ... }`
unfoldable pub with_queue : ℕ → (QueueState → QueueState) → Block → Block
with_queue queue f b =
    if queue == 0 then b else record b { queues = Keyed.modify queue_key queue f b.queues }

-- `state = disk_state_for(disk); if (state != NULL) { ... }`
unfoldable pub with_disk : ℕ → (DiskState → DiskState) → Block → Block
with_disk disk f b =
    if disk == 0 then b else record b { disks = Keyed.modify disk_key disk f b.disks }

abbrev pub default_limits : Limits
default_limits = record {
  logical_block_size = 512;
  physical_block_size = 512;
  io_min = 0;
  io_opt = 0;
  max_hw_sectors = 1024;
  max_segments = 1;
  max_discard_sectors = 0;
  max_discard_segments = 0;
  max_write_zeroes_sectors = 0;
  max_zone_append_sectors = 0;
  chunk_sectors = 0;
  dma_alignment = 0;
  virt_boundary_mask = 0;
  flags = 0;
  write_cache = 0;
  fua = 0;
}

abbrev pub fresh_queue : ℕ → ℕ → QueueState
fresh_queue queue tag_set = record {
  queue = queue;
  tag_set = tag_set;
  limits = default_limits;
  put_count = 0;
  destroy_count = 0;
}

abbrev pub fresh_disk : ℕ → ℕ → DiskState
fresh_disk disk number = record {
  disk = disk;
  queue = 0;
  part0 = 0;
  parent = 0;
  groups = 0;
  capacity_sectors = 0;
  disk_number = number;
  registered = 0;
  read_only = 0;
  notify_count = 0;
  put_count = 0;
  dead = 0;
  zoned_model = 0;
  readahead_update_count = 0;
  zone_revalidate_count = 0;
  io_ctx = 0;
  read_fn = 0;
  read_batch_fn = 0;
  write_fn = 0;
  write_batch_fn = 0;
  write_flags_fn = 0;
  flush_fn = 0;
  read_count = 0;
  write_count = 0;
  bytes_read = 0;
  bytes_written = 0;
}
