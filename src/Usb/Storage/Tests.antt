-- ===== src/Usb/Storage/Tests.antt =====
-- A device of the interface 5, with an INQUIRY in the command block at 100.
use kobox.Prelude.{
  All, List, [], arith, false, get_or, pos, refl, some, suc, true, zero, ℕ, ℤ, ◌%◌, ◌+◌, ◌-◌, ◌<◌,
  ◌∷◌, ◌≡◌, ◌⊎◌,
}
use kobox.Keyed
use kobox.Block.State.{initial, queue_state_for, disk_state_for}
use kobox.Usb.Storage.State.{Bytes, Storage, zero_storage}
use kobox.Usb.Storage.Table.{Machine, record_find_by_interface, find_slot}
use kobox.Usb.Storage.Backing.{storage_backing_transfer}
use kobox.Usb.Storage.Backing.Flat.{Transfers, storage_backing_transfer-Transfers}
use kobox.Usb.Storage.Backing.Readback.{storage_backing_transfer-storage_backing_transfer}
use kobox.Usb.Storage.Scsi.{storage_driver, read_le32}
use kobox.Usb.Storage.Disk.{Objects, storage_ensure_block}
use kobox.Usb.Storage.Disk.Refused.{IsFresh, all_given}
use kobox.Usb.Storage.Disk.Opened.{Opens, Refuses, storage_ensure_block-Opens}
use kobox.Usb.Storage.Bot.{BotResult, bot_transfer}
use kobox.Usb.Storage.Bot.Answer.{Answers, IsCommandBlock, bot_transfer-Answers}

abbrev a_storage : Storage
a_storage = record zero_storage {
  active = true;
  interface = 5;
  medium_present = 1;
  capacity_sectors = 2048;
  sector_size = 512;
}

-- A write over the end of the first extent.
storage_backing_transfer-Transfers_example :
    (t : ℤ × Storage × Bytes) × (storage_backing_transfer true
        (λ _. true)
        7
        64
        1024
        a_storage
        (λ i. i % 256)
      ≡ some t)
    × Transfers true (λ _. true) 3584 64 1024 a_storage (λ i. i % 256) t
storage_backing_transfer-Transfers_example =
    storage_backing_transfer-Transfers true (λ _. true) 7 64 1024 a_storage (λ i. i % 256)
      (omega arith) (omega arith) (omega arith)

storage_backing_transfer-storage_backing_transfer_example :
    (t : ℤ × Storage × Bytes) × (s : ℤ × Storage × Bytes) × (storage_backing_transfer true
        (λ _. true)
        7
        64
        1024
        a_storage
        (λ i. i % 256)
      ≡ some t)
    × (storage_backing_transfer false (λ _. true) 7 8192 1024 t.1 t.2 ≡ some s)
    × (t.0 ≡ pos 0)
    × (s.0 ≡ pos 0)
    × ((i : ℕ) → i < 1024 → s.2 (8192 + i) ≡ (64 + i) % 256)
storage_backing_transfer-storage_backing_transfer_example =
    storage_backing_transfer-storage_backing_transfer 7 64 8192 1024 a_storage (λ i. i % 256)
      (omega arith) (omega arith) (omega arith) (omega arith)

abbrev new_objects : Objects
new_objects = record {
  new_tag_set = 900;
  new_queue = 901;
  new_disk = 902;
  new_part0 = 903;
  queue_node = true;
  disk_node = true;
}

objects_new : IsFresh new_objects initial
unfolding queue_state_for disk_state_for Keyed.find
objects_new = ground arith

storage_ensure_block-Opens_example :
    ((all_given new_objects ≡ false)
      × Refuses a_storage initial (storage_ensure_block new_objects 0 a_storage initial))
    ⊎ ((all_given new_objects ≡ true)
        × Opens new_objects 0 a_storage (storage_ensure_block new_objects 0 a_storage initial))
storage_ensure_block-Opens_example =
    storage_ensure_block-Opens new_objects 0 a_storage initial refl objects_new

abbrev inquiry_block : List ℕ
inquiry_block =
    85 ∷ 83 ∷ 66 ∷ 67 ∷ 7 ∷ 0 ∷ 0 ∷ 0 ∷ 36 ∷ 0 ∷ 0 ∷ 0 ∷ 128 ∷ 0 ∷ 6 ∷ 18 ∷ 0 ∷ 0 ∷ 0 ∷ 36 ∷ 0 ∷ []

abbrev with_inquiry : Machine
with_inquiry = record { storages = a_storage ∷ []; ram = λ i. get_or inquiry_block (i - 100) 0 }

get_or-lt : (xs : List ℕ) (i : ℕ) → All (λ x. x < 256) xs → get_or xs i 0 < 256
get_or-lt [] i h = omega arith
get_or-lt (x ∷ xs) zero h = h.0
get_or-lt (x ∷ xs) (suc i) h = get_or-lt xs i h.1

inquiry_block-lt : All (λ x. x < 256) inquiry_block
inquiry_block-lt = ground arith

inquiry-IsCommandBlock : IsCommandBlock with_inquiry.ram 100 31
unfolding read_le32
inquiry-IsCommandBlock = (omega arith, omega arith, refl, refl, omega arith, omega arith)

bot_transfer-Answers_example :
    (r : BotResult) × ((bot_transfer
        (storage_driver (λ _. true))
        5
        100
        31
        4096
        36
        initial
        with_inquiry).0
      ≡ pos 0)
    × ((bot_transfer (storage_driver (λ _. true)) 5 100 31 4096 36 initial with_inquiry).1 ≡ some r)
    × Answers 7 36 r
unfolding read_le32 find_slot record_find_by_interface
bot_transfer-Answers_example =
    bot_transfer-Answers (storage_driver (λ _. true)) 5 100 31 4096 36 initial with_inquiry {i = 0}
      (λ j. get_or-lt inquiry_block (j - 100) inquiry_block-lt) refl inquiry-IsCommandBlock
