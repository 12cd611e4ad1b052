-- ===== src/Usb/Storage/Scsi.antt =====
-- The SCSI commands of src/linux_subsystem/usb/storage.c. A record is named by its slot in the table,
-- and a disk's I/O context is the slot of its record.
use kobox.Prelude.{
  Bool, List, Option, [], get_elem?, get_or, if◌then◌else◌, leb, length, ltb, neg, none, set, some,
  u32_mod, ℕ, ℤ, ◌%◌, ◌*◌, ◌++◌, ◌+◌, ◌-◌, ◌/◌, ◌==◌, ◌^◌, ◌||◌, ◌∷◌,
}
use kobox.Block.Io.{Request, Driver}
use kobox.Usb.Storage.State.{Bytes, Storage, copy}
use kobox.Usb.Storage.Table.{Machine}
use kobox.Usb.Storage.Backing.{storage_block_read, storage_block_write}

-- The record's part of a transfer by one of the two callbacks of the disk.
abbrev transferred : ℕ → Option (ℤ × Storage × Bytes) → Machine → ℤ × Machine
transferred i none m = (neg 22, m)
transferred i (some t) m = (t.0, record { storages = set m.storages i t.1; ram = t.2 })

pub block_read : ℕ → ℕ → Request → Machine → ℤ × Machine
block_read fn i q m = elim (get_elem? m.storages i) [
  | none ↦ (neg 22, m)
  | some r ↦ transferred i (storage_block_read q.sector q.buffer q.byte_count r m.ram) m
]

pub block_write : (ℕ → Bool) → ℕ → ℕ → Request → Machine → ℤ × Machine
block_write got fn i q m = elim (get_elem? m.storages i) [
  | none ↦ (neg 22, m)
  | some r ↦ transferred i (storage_block_write got q.sector q.buffer q.byte_count r m.ram) m
]

-- The functions that kb_block_subsystem_disk_set_io is given for the disks of the table. They have no
-- others, so those calls are not made.
pub storage_driver : (ℕ → Bool) → Driver Machine
storage_driver got = record {
  read = block_read;
  read_batch = λ fn i qs m. (neg 95, m);
  write = block_write got;
  write_batch = λ fn i qs m. (neg 95, m);
  write_flags = λ fn i q flags m. (neg 95, m);
  flush = λ fn i m. (neg 95, m);
}

-- kb_usb_storage_scsi_result_t
pub record ScsiResult : Type 0 where
  pub status : ℕ
  pub sense_key : ℕ
  pub asc : ℕ
  pub ascq : ℕ
  pub data_transferred : ℕ
  pub residue : ℕ

abbrev pub low32 : ℕ → ℕ
low32 n = if ltb (u32_mod - 1) n then u32_mod - 1 else n

unfoldable pub result_good : ℕ → ℕ → ScsiResult
result_good transferred buffer_len = record {
  status = 0;
  sense_key = 0;
  asc = 0;
  ascq = 0;
  data_transferred = transferred;
  residue = low32 (if leb transferred buffer_len then buffer_len - transferred else 0);
}

unfoldable pub check_condition : ℕ → ℕ → ℕ → ScsiResult
check_condition sense_key asc buffer_len = record {
  status = 2;
  sense_key = sense_key;
  asc = asc;
  ascq = 0;
  data_transferred = 0;
  residue = low32 buffer_len;
}

pub note_sense : ℕ → ℕ → Storage → Storage
note_sense sense_key asc r = record r { last_sense_key = sense_key; last_asc = asc; last_ascq = 0 }

-- The bytes of a buffer, 0 above `n`: how many are copied, and memory with them.
unfoldable pub copy_limited : ℕ → ℕ → List ℕ → Bytes → ℕ × Bytes
copy_limited buffer buffer_len bytes ram =
    if buffer == 0 || buffer_len == 0
    then (0, ram)
    else let n = if ltb (length bytes) buffer_len then length bytes else buffer_len in
      (n, copy ram buffer (λ i. get_or bytes i 0) 0 n)

-- The bytes are below 256, so those that the code joins by `|` are added.
pub read_be16 : Bytes → ℕ → ℕ
read_be16 ram p = ram p * 2 ^ 8 + ram (p + 1)

pub read_be32 : Bytes → ℕ → ℕ
read_be32 ram p = ram p * 2 ^ 24 + ram (p + 1) * 2 ^ 16 + ram (p + 2) * 2 ^ 8 + ram (p + 3)

unfoldable pub read_le32 : Bytes → ℕ → ℕ
read_le32 ram p = ram p + ram (p + 1) * 2 ^ 8 + ram (p + 2) * 2 ^ 16 + ram (p + 3) * 2 ^ 24

pub be32 : ℕ → List ℕ
be32 n = n / 2 ^ 24 % 256 ∷ n / 2 ^ 16 % 256 ∷ n / 2 ^ 8 % 256 ∷ n % 256 ∷ []

unfoldable pub le32 : ℕ → List ℕ
le32 n = n % 256 ∷ n / 2 ^ 8 % 256 ∷ n / 2 ^ 16 % 256 ∷ n / 2 ^ 24 % 256 ∷ []

pub sense_data : Storage → List ℕ
sense_data r =
    112 ∷ 0 ∷ r.last_sense_key ∷ 0 ∷ 0 ∷ 0 ∷ 0 ∷ 10 ∷ 0 ∷ 0 ∷ 0 ∷ 0 ∷ r.last_asc ∷ r.last_ascq ∷ 0
    ∷ 0 ∷ 0 ∷ 0 ∷ []

-- "KOBOX   ", "USB STORAGE     " and "0001" from byte 8 on.
pub inquiry_data : List ℕ
inquiry_data =
    0 ∷ 128 ∷ 6 ∷ 2 ∷ 31 ∷ 0 ∷ 0 ∷ 0 ∷ b'K' ∷ b'O' ∷ b'B' ∷ b'O' ∷ b'X' ∷ 32 ∷ 32 ∷ 32 ∷ b'U' ∷ b'S'
    ∷ b'B' ∷ 32 ∷ b'S' ∷ b'T' ∷ b'O' ∷ b'R' ∷ b'A' ∷ b'G' ∷ b'E' ∷ 32 ∷ 32 ∷ 32 ∷ 32 ∷ 32 ∷ b'0'
    ∷ b'0' ∷ b'0' ∷ b'1' ∷ []

pub capacity_data : Storage → List ℕ
unfolding be32
capacity_data r =
    be32 (if r.capacity_sectors == 0 then 0 else low32 (r.capacity_sectors - 1))
    ++ be32 r.sector_size
