-- ===== src/Usb/Storage/Command.antt =====
-- kb_usb_storage_subsystem_scsi_command of src/linux_subsystem/usb/storage.c, with the disk I/O of
-- src/linux_subsystem/block/block.c. The result is taken to be wanted; it is `none` with -EINVAL.
pub mod Balance
use kobox.Prelude.{
  Bool, List, Option, [], add64, false, get_elem?, if◌then◌else◌, ltb, mul64, neg, negsuc, none,
  not, pos, some, true, zero, ℕ, ℤ, ◌&&◌, ◌+◌, ◌==◌, ◌||◌, ◌∷◌,
}
use kobox.Block.State.{Block}
use kobox.Block.Io.{Request, Driver, disk_read, disk_write}
use kobox.Usb.Storage.State.{Bytes, Storage, copy}
use kobox.Usb.Storage.Table.{Machine, record_find_by_interface, with_slot}
use kobox.Usb.Storage.Scsi.{
  ScsiResult, result_good, check_condition, note_sense, copy_limited, read_be16, read_be32,
  sense_data, inquiry_data, capacity_data,
}

-- What a command leaves.
abbrev pub Outcome : Type 0
Outcome = ℤ × Option ScsiResult × Block × Machine

abbrev pub refuse : ℕ → ℕ → ℕ → ℕ → Block → Machine → Outcome
refuse i sense_key asc buffer_len b m = (
  pos 0,
  some (check_condition sense_key asc buffer_len),
  b,
  with_slot i (note_sense sense_key asc) m,
)

-- ILLEGAL_REQUEST with INVALID_FIELD_IN_CDB
abbrev pub refuse_field : ℕ → ℕ → Block → Machine → Outcome
refuse_field i buffer_len b m = refuse i 5 36 buffer_len b m

-- An answer of bytes to the buffer.
unfoldable pub reply : ℕ → ℕ → List ℕ → Block → Machine → Outcome
reply buffer buffer_len bytes b m =
    let copied = copy_limited buffer buffer_len bytes m.ram in
    (pos 0, some (result_good copied.0 buffer_len), b, record m { ram = copied.1 })

abbrev count_transfer : Bool → Storage → Storage
count_transfer true r = record r { scsi_write_command_count = add64 r.scsi_write_command_count 1 }
count_transfer false r = record r { scsi_read_command_count = add64 r.scsi_read_command_count 1 }

-- What follows the disk's answer.
pub finish_transfer : ℕ → Bool → ℕ → ℕ → ℤ × Block × Machine → Outcome
finish_transfer i write byte_count buffer_len (pos zero, b, m) =
    (pos 0, some (result_good byte_count buffer_len), b, with_slot i (count_transfer write) m)
finish_transfer i write byte_count buffer_len (negsuc n, b, m) =
    if n == 33 then refuse i 5 33 buffer_len b m else refuse_field i buffer_len b m
finish_transfer i write byte_count buffer_len (result, b, m) = refuse_field i buffer_len b m

abbrev pub count_command : ℕ → Storage → Storage
count_command opcode r = record r {
  scsi_command_count = add64 r.scsi_command_count 1;
  last_scsi_opcode = opcode;
}

module _ (d : Driver Machine) where
  -- READ(10) and WRITE(10): `r` is the record of the slot `i`.
  pub scsi_transfer : ℕ → Storage → Bool → ℕ → ℕ → ℕ → ℕ → Bool → Block → Machine → Outcome
  unfolding finish_transfer
  scsi_transfer i r write cdb cdb_len buffer buffer_len data_out b m =
      let lba = read_be32 m.ram (cdb + 2) in
      let blocks = read_be16 m.ram (cdb + 7) in
      let byte_count = mul64 blocks r.sector_size in
      let request : Request = record { sector = lba; buffer = buffer; byte_count = byte_count } in
      if ltb cdb_len 10
      then refuse_field i buffer_len b m
      else if (write && not data_out) || (not write && data_out)
      then refuse_field i buffer_len b m
      else if blocks == 0
      then (pos 0, some (result_good 0 buffer_len), b, m)
      else if ltb r.capacity_sectors (lba + blocks)
      then refuse i 5 33 buffer_len b m
      else if buffer == 0 || ltb buffer_len byte_count
      then refuse_field i buffer_len b m
      else finish_transfer i write byte_count buffer_len
          (if write then disk_write d r.disk request b m else disk_read d r.disk request b m)

  -- The cases of the operation code, where there is a medium.
  pub scsi_dispatch : ℕ → Storage → ℕ → ℕ → ℕ → ℕ → Bool → Block → Machine → Outcome
  unfolding scsi_transfer
  scsi_dispatch i r cdb cdb_len buffer buffer_len data_out b m =
      let opcode = m.ram cdb in
      if opcode == 0 || opcode == 27 || opcode == 53
      then (pos 0, some (result_good 0 buffer_len), b, m)
      else if opcode == 3
      then reply buffer buffer_len (sense_data r) b m
      else if opcode == 18
      then (if data_out
          then refuse_field i buffer_len b m
          else reply buffer buffer_len inquiry_data b m)
      else if opcode == 26
      then reply buffer buffer_len (3 ∷ 0 ∷ 0 ∷ 0 ∷ []) b m
      else if opcode == 37
      then (if data_out
          then refuse_field i buffer_len b m
          else reply buffer buffer_len (capacity_data r) b m)
      else if opcode == 40
      then scsi_transfer i r false cdb cdb_len buffer buffer_len data_out b m
      else if opcode == 42
      then scsi_transfer i r true cdb cdb_len buffer buffer_len data_out b m
      else refuse i 5 32 buffer_len b m

  pub scsi_command : ℕ → ℕ → ℕ → ℕ → ℕ → Bool → Block → Machine → Outcome
  unfolding scsi_dispatch
  scsi_command interface cdb cdb_len buffer buffer_len data_out b m =
      elim (record_find_by_interface interface m.storages) [
        | none ↦ (neg 22, none, b, m)
        | some i ↦
            if cdb == 0 || cdb_len == 0
            then (neg 22, none, b, m)
            else elim (get_elem? m.storages i) [
              | none ↦ (neg 22, none, b, m)
              | some r ↦
                  let counted = with_slot i (count_command (m.ram cdb)) m in
                  if r.medium_present == 0
                  then refuse i 2 58 buffer_len b counted
                  else scsi_dispatch i r cdb cdb_len buffer buffer_len data_out b counted
            ]
      ]
