-- ===== src/Usb/Storage/State.antt =====
-- The records of src/linux_subsystem/usb/storage.c. Memory is one function from an address to a byte.
use kobox.Prelude.{Bool, List, [], false, if◌then◌else◌, leb, ltb, ℕ, ◌&&◌, ◌+◌, ◌-◌}

abbrev pub Bytes : Type 0
Bytes = ℕ → ℕ

-- kb_usb_storage_extent_t
pub record Extent : Type 0 where
  pub index : ℕ
  pub bytes : Bytes

-- kb_usb_storage_record_t, with the fields of its kb_usb_storage_snapshot_t.
pub record Storage : Type 0 where
  pub active : Bool
  pub udev : ℕ
  pub interface : ℕ
  pub linux_device : ℕ
  pub parent_linux_device : ℕ
  pub driver : ℕ
  pub driver_data : ℕ
  pub scsi_host : ℕ
  pub scsi_host_private : ℕ
  pub disk : ℕ
  pub queue : ℕ
  pub part0 : ℕ
  pub tag_set : ℕ
  pub capacity_sectors : ℕ
  pub sector_size : ℕ
  pub disk_number : ℕ
  pub registered : ℕ
  pub medium_present : ℕ
  pub scan_count : ℕ
  pub add_host_count : ℕ
  pub backing_bytes : ℕ
  pub read_count : ℕ
  pub write_count : ℕ
  pub bytes_read : ℕ
  pub bytes_written : ℕ
  pub scsi_command_count : ℕ
  pub scsi_read_command_count : ℕ
  pub scsi_write_command_count : ℕ
  pub bot_command_count : ℕ
  pub bot_success_count : ℕ
  pub bot_failed_count : ℕ
  pub bot_phase_error_count : ℕ
  pub bot_reset_count : ℕ
  pub last_bot_tag : ℕ
  pub last_bot_residue : ℕ
  pub last_scsi_opcode : ℕ
  pub last_sense_key : ℕ
  pub last_asc : ℕ
  pub last_ascq : ℕ
  pub last_bot_status : ℕ
  pub interface_number : ℕ
  pub subclass : ℕ
  pub protocol : ℕ
  pub bulk_in_endpoint : ℕ
  pub bulk_out_endpoint : ℕ
  pub extents : List Extent

-- A record after memset.
abbrev pub zero_storage : Storage
zero_storage = record {
  active = false;
  udev = 0;
  interface = 0;
  linux_device = 0;
  parent_linux_device = 0;
  driver = 0;
  driver_data = 0;
  scsi_host = 0;
  scsi_host_private = 0;
  disk = 0;
  queue = 0;
  part0 = 0;
  tag_set = 0;
  capacity_sectors = 0;
  sector_size = 0;
  disk_number = 0;
  registered = 0;
  medium_present = 0;
  scan_count = 0;
  add_host_count = 0;
  backing_bytes = 0;
  read_count = 0;
  write_count = 0;
  bytes_read = 0;
  bytes_written = 0;
  scsi_command_count = 0;
  scsi_read_command_count = 0;
  scsi_write_command_count = 0;
  bot_command_count = 0;
  bot_success_count = 0;
  bot_failed_count = 0;
  bot_phase_error_count = 0;
  bot_reset_count = 0;
  last_bot_tag = 0;
  last_bot_residue = 0;
  last_scsi_opcode = 0;
  last_sense_key = 0;
  last_asc = 0;
  last_ascq = 0;
  last_bot_status = 0;
  interface_number = 0;
  subclass = 0;
  protocol = 0;
  bulk_in_endpoint = 0;
  bulk_out_endpoint = 0;
  extents = [];
}

-- memcpy of `n` bytes; a memset is one from a constant.
abbrev pub copy : Bytes → ℕ → Bytes → ℕ → ℕ → Bytes
copy to at from start n i = if leb at i && ltb i (at + n) then from (start + (i - at)) else to i
