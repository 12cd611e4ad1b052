-- ===== src/Block/Io/Tests.antt =====
-- Disk I/O at a concrete disk: eight sectors at address 7 on queue 3, and a driver whose device
-- is the number of the bytes that were moved.
use kobox.Prelude.{List, [], add64, neg, pos, refl, some, ℕ, ◌+◌, ◌∷◌, ◌≡◌, ◌≢◌, ◌≤◌}
use kobox.Keyed
use kobox.Block.State.{
  Block, DiskState, initial, fresh_disk, fresh_queue, queue_state_for, disk_state_for,
}
use kobox.Block.Io.{
  Request, Driver, disk_io_range_valid, disk_read, disk_write_flags, disk_read_batch,
  disk_logical_block_size, requests_valid, read_each, account_read, account_write,
}
use kobox.Block.Io.Range.{InRange, disk_io_range_valid_iff}
use kobox.Block.Io.Effects.{Accepted, Through, disk_read_done, disk_write_flags_done}
use kobox.Block.Io.Batch.{disk_read_all, disk_read_batch_all}

abbrev media : Driver ℕ
media = record {
  read = λ f ctx r w. (pos 0, w + r.byte_count);
  read_batch = λ f ctx rs w. (neg 5, w);
  write = λ f ctx r w. (pos 0, w + r.byte_count);
  write_batch = λ f ctx rs w. (neg 5, w);
  write_flags = λ f ctx r flags w. (neg 5, w);
  flush = λ f ctx w. (pos 0, w);
}

abbrev disk_7 : DiskState
disk_7 = record (fresh_disk 7 1) {
  queue = 3;
  capacity_sectors = 8;
  registered = 1;
  io_ctx = 50;
  read_fn = 60;
  write_fn = 61;
  flush_fn = 62;
}

abbrev one_disk : Block
one_disk = record initial { queues = fresh_queue 3 4 ∷ []; disks = disk_7 ∷ [] }

abbrev sectors : ℕ → Request
sectors s = record { sector = s; buffer = 4096; byte_count = 512 }

abbrev read_only_disk : Block
read_only_disk = record one_disk { disks = record disk_7 { read_only = 1 } ∷ [] }

last_sector : disk_io_range_valid one_disk disk_7 7 512 ≡ pos 0
unfolding disk_io_range_valid disk_logical_block_size queue_state_for Keyed.find
last_sector = refl

past_the_end : disk_io_range_valid one_disk disk_7 8 512 ≡ neg 34
unfolding disk_io_range_valid disk_logical_block_size queue_state_for Keyed.find
past_the_end = refl

disk_io_range_valid_iff_example : InRange one_disk disk_7 7 512
disk_io_range_valid_iff_example = (disk_io_range_valid_iff one_disk disk_7 7 512).0 last_sector

disk_read_done_example :
    (s : DiskState) × Accepted media 7 (sectors 2) one_disk 0 s
    × (s.read_fn ≢ 0)
    × (media.read s.read_fn s.io_ctx (sectors 2) 0 ≡ (pos 0, 512))
    × (disk_state_for (disk_read media 7 (sectors 2) one_disk 0).1 7
        ≡ some (account_read 1 (add64 s.bytes_read 512) s))
unfolding disk_read disk_state_for disk_io_range_valid disk_logical_block_size queue_state_for
    Keyed.find
disk_read_done_example = disk_read_done media 7 (sectors 2) one_disk 0 refl

disk_write_flags_done_example :
    (s : DiskState) × Accepted media 7 (sectors 2) one_disk 0 s
    × (s.read_only ≡ 0)
    × (1 ≤ 1)
    × (disk_state_for (disk_write_flags media 7 (sectors 2) 1 one_disk 0).1 7
        ≡ some (account_write 1 (add64 s.bytes_written 512) s))
    × Through media 7 (sectors 2) one_disk 0 s 1 512
unfolding disk_write_flags disk_state_for disk_io_range_valid disk_logical_block_size
    queue_state_for Keyed.find
disk_write_flags_done_example = disk_write_flags_done media 7 (sectors 2) one_disk 0 1 refl

abbrev two_sectors : List Request
two_sectors = sectors 0 ∷ sectors 3 ∷ []

disk_read_batch_all_example :
    disk_read_all media 7 two_sectors one_disk 0
    ≡ (pos 0, (disk_read_batch media 7 (some two_sectors) one_disk 0).1, 1024)
unfolding disk_read_batch disk_state_for disk_io_range_valid disk_logical_block_size queue_state_for
    Keyed.find requests_valid read_each
disk_read_batch_all_example =
    disk_read_batch_all media 7 two_sectors disk_7 one_disk 0 refl refl refl
