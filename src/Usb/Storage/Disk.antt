-- ===== src/Usb/Storage/Disk.antt =====
-- The disk of a mass storage device of src/linux_subsystem/usb/storage.c.
pub mod Refused
pub mod Opened
use kobox.Prelude.{Bool, if◌then◌else◌, is_zero, neg, none, not, pos, some, ℕ, ℤ, ◌/=◌, ◌==◌, ◌||◌}
use kobox.Block.State.{Block}
use kobox.Block.Queue.{
  queue_alloc, queue_set_logical_block_size, queue_set_physical_block_size, queue_set_io_min,
  queue_set_max_hw_sectors, queue_set_max_segments,
}
use kobox.Block.Disk.{
  disk_alloc, disk_attach, disk_register, disk_unregister, disk_set_capacity, disk_set_io,
}
use kobox.Block.Objects.{block_device_alloc, object_free, disk_snapshot}
use kobox.Usb.Storage.State.{Storage}
use kobox.Usb.Storage.Backing.{storage_release_backing}

-- What the allocations return, NULL where they fail; and whether the block layer gets its nodes.
pub record Objects : Type 0 where
  pub new_tag_set : ℕ
  pub new_queue : ℕ
  pub new_disk : ℕ
  pub new_part0 : ℕ
  pub queue_node : Bool
  pub disk_node : Bool

-- The two functions of the disk, by number.
abbrev pub read_fn_number : ℕ
read_fn_number = 1

abbrev pub write_fn_number : ℕ
write_fn_number = 2

pub free_objects : ℕ → ℕ → ℕ → Block → Block
free_objects queue disk part0 b = object_free part0 (object_free disk (object_free queue b))

pub limit_queue : ℕ → ℕ → Block → Block
limit_queue queue sector_size b = queue_set_max_segments queue 128 (
    queue_set_max_hw_sectors queue 240 (
      queue_set_io_min queue sector_size (
        queue_set_physical_block_size queue sector_size
          (queue_set_logical_block_size queue sector_size b))))

-- The record is that of the slot `i`.
pub storage_ensure_block : Objects → ℕ → Storage → Block → ℤ × Storage × Block
unfolding free_objects limit_queue
storage_ensure_block o i r b =
    if r.disk /= 0
    then (pos 0, r, b)
    else let queue = queue_alloc o.new_queue o.queue_node o.new_tag_set b in
      let disk = disk_alloc o.new_disk o.disk_node queue.1 in
      let part0 = block_device_alloc o.new_part0 in
      if o.new_tag_set == 0 || queue.0 == 0 || disk.0 == 0 || part0 == 0
      then (neg 12, r, free_objects queue.0 disk.0 part0 disk.1)
      else let attached =
          disk_attach disk.0 queue.0 part0 (limit_queue queue.0 r.sector_size disk.1) in
        let registered = disk_register r.interface disk.0 0 attached.1 in
        if not (is_zero attached.0)
        then (neg 22, r, free_objects queue.0 disk.0 part0 attached.1)
        else if not (is_zero registered.0)
        then (neg 22, r, free_objects queue.0 disk.0 part0 registered.1)
        else let opened =
            disk_set_io disk.0 i read_fn_number write_fn_number
              (disk_set_capacity disk.0 r.capacity_sectors registered.1) in
          let number : ℕ = elim (disk_snapshot disk.0 opened) [
            | none ↦ r.disk_number
            | some s ↦ s.disk_number
          ] in
          (
            pos 0,
            record r {
              disk_number = number;
              tag_set = o.new_tag_set;
              queue = queue.0;
              disk = disk.0;
              part0 = part0;
              registered = 1;
            },
            opened,
          )

pub storage_release_block : Storage → Block → Storage × Block
storage_release_block r b =
    let unregistered = if r.disk /= 0 then disk_unregister r.disk b else b in
    (
      storage_release_backing (record r {
        disk = 0;
        part0 = 0;
        queue = 0;
        tag_set = 0;
        disk_number = 0;
        registered = 0;
      }),
      object_free r.queue (object_free r.part0 (object_free r.disk unregistered)),
    )
