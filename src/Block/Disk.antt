-- ===== src/Block/Disk.antt =====
-- The disk operations of src/linux_subsystem/block/block.c that do no I/O.
pub mod Laws
use kobox.Prelude.{
  Bool, List, Option, [], if◌then◌else◌, inc32, neg, none, pos, some, ℕ, ℤ, ◌&&◌, ◌/=◌, ◌==◌, ◌∷◌,
}
use kobox.Keyed
use kobox.Block.State.{Block, DiskState, disk_state_for, with_disk, fresh_disk, disk_key}
use kobox.Block.Queue.{write_word, flag_of}

unfoldable pub disk_state_create : Bool → ℕ → Block → Option Block
disk_state_create got_node disk b =
    if got_node
    then some (record b {
      disks = fresh_disk disk b.next_disk_number ∷ b.disks;
      next_disk_number = inc32 b.next_disk_number;
    })
    else none

unfoldable pub disk_alloc : ℕ → Bool → Block → ℕ × Block
unfolding disk_state_create
disk_alloc disk got_node b =
    if disk == 0
    then (0, b)
    else let b' = record b { object_tag_set = write_word b.object_tag_set disk 0 } in
      elim (disk_state_create got_node disk b') [ none ↦ (0, b') | some c ↦ (disk, c) ]

pub disk_attach : ℕ → ℕ → ℕ → Block → ℤ × Block
disk_attach disk queue part0 b = elim (disk_state_for b disk) [
  | none ↦ (neg 22, b)
  | some _ ↦
      if queue == 0
      then (neg 22, b)
      else if part0 == 0
      then (neg 22, b)
      else (pos 0, with_disk disk (λ s. record s { queue = queue; part0 = part0 }) b)
]

pub disk_register : ℕ → ℕ → ℕ → Block → ℤ × Block
disk_register parent disk groups b = elim (disk_state_for b disk) [
  | none ↦ (neg 22, b)
  | some _ ↦
      (pos 0, with_disk disk (λ s. record s { parent = parent; groups = groups; registered = 1 }) b)
]

pub disk_unregister : ℕ → Block → Block
disk_unregister disk = with_disk disk λ s. record s { registered = 0 }

disk_put : ℕ → Block → Block
disk_put disk = with_disk disk λ s. record s { put_count = inc32 s.put_count }

pub disk_set_capacity : ℕ → ℕ → Block → Block
disk_set_capacity disk sectors = with_disk disk λ s. record s { capacity_sectors = sectors }

disk_set_capacity_and_notify : ℕ → ℕ → Block → ℤ × Block
disk_set_capacity_and_notify disk sectors b = elim (disk_state_for b disk) [
  | none ↦ (pos 0, b)
  | some s ↦ (
    pos (if s.capacity_sectors /= sectors then 1 else 0),
    with_disk disk
        (λ t. record t { capacity_sectors = sectors; notify_count = inc32 t.notify_count }) b,
  )
]

disk_set_read_only : ℕ → ℕ → Block → Block
disk_set_read_only disk read_only = with_disk disk λ s. record s { read_only = flag_of read_only }

pub disk_mark_dead : ℕ → Block → Block
disk_mark_dead disk = with_disk disk λ s. record s { dead = 1; registered = 0 }

disk_set_zoned : ℕ → ℕ → Block → Block
disk_set_zoned disk model = with_disk disk λ s. record s { zoned_model = model }

disk_update_readahead : ℕ → Block → Block
disk_update_readahead disk =
    with_disk disk λ s. record s { readahead_update_count = inc32 s.readahead_update_count }

disk_revalidate_zones : ℕ → Block → ℤ × Block
disk_revalidate_zones disk b = elim (disk_state_for b disk) [
  | none ↦ (neg 22, b)
  | some _ ↦ (
    pos 0,
    with_disk disk (λ s. record s { zone_revalidate_count = inc32 s.zone_revalidate_count }) b,
  )
]

-- The loop of first_registered_disk.
first_registered : List DiskState → ℕ
first_registered [] = 0
first_registered (s ∷ rest) =
    if s.registered /= 0 && s.dead == 0 then s.disk else first_registered rest

pub first_registered_disk : Block → ℕ
unfolding first_registered
first_registered_disk b = first_registered b.disks

pub disk_set_io : ℕ → ℕ → ℕ → ℕ → Block → Block
disk_set_io disk ctx read_fn write_fn =
    with_disk disk λ s. record s { io_ctx = ctx; read_fn = read_fn; write_fn = write_fn }

disk_set_read_batch : ℕ → ℕ → Block → Block
disk_set_read_batch disk f = with_disk disk λ s. record s { read_batch_fn = f }

disk_set_write_batch : ℕ → ℕ → Block → Block
disk_set_write_batch disk f = with_disk disk λ s. record s { write_batch_fn = f }

disk_set_write_flags : ℕ → ℕ → Block → Block
disk_set_write_flags disk f = with_disk disk λ s. record s { write_flags_fn = f }

disk_set_flush : ℕ → ℕ → Block → Block
disk_set_flush disk f = with_disk disk λ s. record s { flush_fn = f }

unfoldable pub disk_state_remove : ℕ → Block → Block
disk_state_remove disk b = record b { disks = Keyed.remove disk_key disk b.disks }
