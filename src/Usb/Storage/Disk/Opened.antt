-- ===== src/Usb/Storage/Disk/Opened.antt =====
-- The disk that src/linux_subsystem/usb/storage.c opens for a device.
use kobox.Prelude.{
  ==_refl, Bool, Bool-cases, arith, false, if◌then◌else◌, inl, inr, neg, not, pos, refl, some, sym,
  true, ℕ, ℤ, ◌/=◌, ◌==◌, ◌||◌, ◌∙◌, ◌≡◌, ◌⊎◌,
}
use kobox.Block.State.{
  Block, Limits, QueueState, disk_state_for, queue_state_for, with_queue, fresh_disk, fresh_queue,
  default_limits,
}
use kobox.Block.State.Laws.{queue_state_for-with_queue}
use kobox.Block.Queue.{
  queue_alloc, queue_set_logical_block_size, queue_set_physical_block_size, queue_set_io_min,
  queue_set_max_hw_sectors, queue_set_max_segments,
}
use kobox.Block.Disk.{disk_alloc, disk_attach, disk_register, disk_set_capacity, disk_set_io}
use kobox.Block.Disk.Laws.{
  disk_state_for-disk_alloc, disk_state_for-disk_attach, disk_state_for-disk_register,
  disk_state_for-disk_set_capacity, disk_state_for-disk_set_io, queues-disk_attach,
  queues-disk_register, queues-disk_set_capacity, queues-disk_set_io,
}
use kobox.Block.Objects.{block_device_alloc, disk_snapshot}
use kobox.Usb.Storage.State.{Storage}
use kobox.Usb.Storage.Disk.Refused.{
  IsFresh, IsAlike, all_given, some_null, all_given_queue, free_objects-IsAlike,
}
use kobox.Usb.Storage.Disk.{
  Objects, limit_queue, storage_ensure_block, read_fn_number, write_fn_number,
}

disks-with_queue :
    (queue : ℕ) (f : QueueState → QueueState) (b : Block) → (with_queue queue f b).disks ≡ b.disks
unfolding with_queue
disks-with_queue queue f b = ground arith

disks-limit_queue : (queue size : ℕ) (b : Block) → (limit_queue queue size b).disks ≡ b.disks
unfolding limit_queue queue_set_logical_block_size queue_set_physical_block_size queue_set_io_min
    queue_set_max_hw_sectors queue_set_max_segments with_queue
disks-limit_queue queue size b = ground arith

disk_state_for-limit_queue :
    (queue size disk : ℕ) (b : Block)
    → disk_state_for (limit_queue queue size b) disk ≡ disk_state_for b disk
unfolding disk_state_for
disk_state_for-limit_queue queue size disk b = rw (disks-limit_queue queue size b) refl

abbrev size_or : ℕ → ℕ → ℕ
size_or default size = if size == 0 then default else size

-- The queue's limits for a device with sectors of `size` bytes, which are 512 where it is 0.
abbrev pub limits_of : ℕ → Limits → Limits
limits_of size l = record l {
  logical_block_size = size_or l.logical_block_size size;
  physical_block_size = size_or l.physical_block_size size;
  io_min = size;
  max_hw_sectors = 240;
  max_segments = 128;
}

-- One setter of the queue's limits.
limit-found :
    (queue : ℕ) (f : QueueState → QueueState) (b : Block) {s : QueueState}
    → ((x : QueueState) → (f x).queue ≡ x.queue)
    → queue_state_for b queue ≡ some s
    → queue_state_for (with_queue queue f b) queue ≡ some (f s)
limit-found queue f b keeps h =
    queue_state_for-with_queue queue f b queue keeps ∙ rw (==_refl queue, h) refl

limit_logical :
    (queue size : ℕ) (b : Block) {s : QueueState}
    → queue_state_for b queue ≡ some s
    → queue_state_for (queue_set_logical_block_size queue size b) queue
      ≡ some (record s {
        limits = record (s.limits) {
          logical_block_size = size_or s.limits.logical_block_size size;
        };
      })
unfolding queue_set_logical_block_size
limit_logical queue size b h = elim (Bool-cases (size == 0)) [
  | inl e ↦ let n : (size /= 0) ≡ false = ground arith in rw (queue_set_logical_block_size, e, n) h
  | inr e ↦
      let n : (size /= 0) ≡ true = ground arith in
      rw (queue_set_logical_block_size, e, n) (limit-found queue _ b (λ x. refl) h)
]

limit_physical :
    (queue size : ℕ) (b : Block) {s : QueueState}
    → queue_state_for b queue ≡ some s
    → queue_state_for (queue_set_physical_block_size queue size b) queue
      ≡ some (record s {
        limits = record (s.limits) {
          physical_block_size = size_or s.limits.physical_block_size size;
        };
      })
unfolding queue_set_physical_block_size
limit_physical queue size b h = elim (Bool-cases (size == 0)) [
  | inl e ↦ let n : (size /= 0) ≡ false = ground arith in rw (queue_set_physical_block_size, e, n) h
  | inr e ↦
      let n : (size /= 0) ≡ true = ground arith in
      rw (queue_set_physical_block_size, e, n) (limit-found queue _ b (λ x. refl) h)
]

limit_queue-found :
    (queue size : ℕ) (b : Block) {s : QueueState}
    → queue_state_for b queue ≡ some s
    → queue_state_for (limit_queue queue size b) queue
      ≡ some (record s { limits = limits_of size s.limits })
unfolding limit_queue queue_set_io_min queue_set_max_hw_sectors queue_set_max_segments
limit_queue-found queue size b h =
    limit-found queue _ _ (λ x. refl)
      (limit-found queue _ _ (λ x. refl)
        (limit-found queue _ _ (λ x. refl)
          (limit_physical queue size _ (limit_logical queue size b h))))

-- The disk that the device gets: with the capacity, the parent and the I/O functions of the device,
-- and a queue with its limits.
abbrev pub Opens : Objects → ℕ → Storage → ℤ × Storage × Block → Type 0
Opens o i r t =
    (number : ℕ) × (queue : ℕ) × (t.0 ≡ pos 0)
    × (queue ≡ o.new_queue)
    × (t.1 ≡ record r {
      disk_number = number;
      tag_set = o.new_tag_set;
      queue = queue;
      disk = o.new_disk;
      part0 = o.new_part0;
      registered = 1;
    })
    × (disk_state_for t.2 o.new_disk
        ≡ some (record (fresh_disk o.new_disk number) {
          queue = queue;
          part0 = o.new_part0;
          parent = r.interface;
          registered = 1;
          capacity_sectors = r.capacity_sectors;
          io_ctx = i;
          read_fn = read_fn_number;
          write_fn = write_fn_number;
        }))
    × (queue_state_for t.2 queue
        ≡ some (record (fresh_queue queue o.new_tag_set) {
          limits = limits_of r.sector_size default_limits;
        }))

-- The answer where an allocation failed.
abbrev pub Refuses : Storage → Block → ℤ × Storage × Block → Type 0
Refuses r b t = (t.0 ≡ neg 12) × (t.1 ≡ r) × IsAlike b t.2

queue-same :
    (b b' : Block) (queue : ℕ)
    → b'.queues ≡ b.queues
    → queue_state_for b' queue ≡ queue_state_for b queue
unfolding queue_state_for
queue-same b b' queue e = rw e refl

-- A device without a disk gets one if every allocation succeeds. The disk is known to the block
-- layer and registered, under the device's interface, with its capacity, and with the two I/O
-- functions on the device's slot; its queue has the limits for the device's sector size. If one of
-- the allocations fails the answer is -ENOMEM, the device's record is as before, and so is the state
-- of every queue and disk. The allocators give addresses that no live object has.
pub storage_ensure_block-Opens :
    (o : Objects) (i : ℕ) (r : Storage) (b : Block)
    → r.disk ≡ 0
    → IsFresh o b
    → ((all_given o ≡ false) × Refuses r b (storage_ensure_block o i r b))
      ⊎ ((all_given o ≡ true) × Opens o i r (storage_ensure_block o i r b))
unfolding storage_ensure_block disk_snapshot block_device_alloc
storage_ensure_block-Opens o i r b h new =
    let closed : (r.disk /= 0) ≡ false = ground arith in
    let q = queue_alloc o.new_queue o.queue_node o.new_tag_set b in
    let d = disk_alloc o.new_disk o.disk_node q.1 in
    let null = some_null o b new in
    elim (Bool-cases (o.new_tag_set == 0 || q.0 == 0 || d.0 == 0 || o.new_part0 == 0)) [
      | inl e ↦ inl (
        not_true (sym null ∙ e),
        rw (storage_ensure_block, closed, e) (refl, refl, free_objects-IsAlike o b new),
      )
      | inr e ↦
          let given : all_given o ≡ true = not_false (sym null ∙ e) in
          let (same, fresh) = all_given_queue o b new given in
          let queued : (q.0 == 0) ≡ false = ground arith in
          let parted : (o.new_part0 == 0) ≡ false = ground arith in
          let made = disk_state_for-disk_alloc o.new_disk o.disk_node q.1 (ground arith) in
          let limited = disk_state_for-limit_queue q.0 r.sector_size o.new_disk d.1 ∙ made.1 in
          let b0 = limit_queue q.0 r.sector_size d.1 in
          let attached =
            disk_state_for-disk_attach o.new_disk b0 limited q.0 o.new_part0 queued parted in
          let b1 = (disk_attach o.new_disk q.0 o.new_part0 b0).1 in
          let registered = disk_state_for-disk_register o.new_disk b1 attached.1 r.interface 0 in
          let b2 = (disk_register r.interface o.new_disk 0 b1).1 in
          let b2' = disk_set_capacity o.new_disk r.capacity_sectors b2 in
          let sized =
            disk_state_for-disk_set_capacity o.new_disk b2 registered.1 r.capacity_sectors in
          let opened =
            disk_state_for-disk_set_io o.new_disk b2' sized i read_fn_number write_fn_number in
          let b3 = disk_set_io o.new_disk i read_fn_number write_fn_number b2' in
          let kept : b3.queues ≡ b0.queues =
            queues-disk_set_io o.new_disk b2' i read_fn_number write_fn_number
            ∙ queues-disk_set_capacity o.new_disk b2 r.capacity_sectors
            ∙ queues-disk_register o.new_disk b1 r.interface 0
            ∙ queues-disk_attach o.new_disk b0 q.0 o.new_part0 in
          let limits = queue-same b0 b3 q.0 kept ∙ limit_queue-found q.0 r.sector_size d.1 fresh in
          let whole : storage_ensure_block o i r b ≡ (
            pos 0,
            record r {
              disk_number = q.1.next_disk_number;
              tag_set = o.new_tag_set;
              queue = q.0;
              disk = o.new_disk;
              part0 = o.new_part0;
              registered = 1;
            },
            b3,
          ) =
            rw (storage_ensure_block, closed, e, made.0, attached.0, registered.0, opened) refl in
          inr (given, rw whole (q.1.next_disk_number, q.0, refl, same, refl, opened, limits))
    ]
  where
    not_true : {x : Bool} → not x ≡ true → x ≡ false
    not_true h = ground arith

    not_false : {x : Bool} → not x ≡ false → x ≡ true
    not_false h = ground arith
