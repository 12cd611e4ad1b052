-- ===== src/Usb/Storage/Bot.antt =====
-- The bulk-only transport of src/linux_subsystem/usb/storage.c: command blocks in, status blocks out.
pub mod Answer
use kobox.Prelude.{
  Bool, List, Option, [], add64, if◌then◌else◌, length, ltb, neg, none, pos, replicate, some, zero,
  ℕ, ℤ, ◌%◌, ◌&&◌, ◌++◌, ◌+◌, ◌-◌, ◌/=◌, ◌/◌, ◌==◌, ◌||◌, ◌∷◌,
}
use kobox.Block.State.{Block}
use kobox.Block.Io.{Driver}
use kobox.Usb.Storage.State.{Bytes, Storage}
use kobox.Usb.Storage.Table.{Machine, record_find_by_interface, with_slot}
use kobox.Usb.Storage.Scsi.{ScsiResult, read_le32, le32}
use kobox.Usb.Storage.Command.{Outcome, scsi_command}

-- kb_usb_storage_bot_result_t
pub record BotResult : Type 0 where
  pub tag : ℕ
  pub residue : ℕ
  pub status : ℕ
  pub data_transferred : ℕ
  pub csw : List ℕ

abbrev pub cbw_signature : ℕ
cbw_signature = 1128420181

abbrev pub csw_signature : ℕ
csw_signature = 1396855637

pub fill_csw : ℕ → ℕ → ℕ → ℕ → BotResult
unfolding le32
fill_csw tag residue status transferred = record {
  tag = tag;
  residue = residue;
  status = status;
  data_transferred = transferred;
  csw = le32 csw_signature ++ le32 tag ++ le32 residue ++ (status ∷ []);
}

pub record_status : ℕ → ℕ → ℕ → Storage → Storage
record_status tag residue status r =
    let noted : Storage = record r {
      last_bot_tag = tag;
      last_bot_residue = residue;
      last_bot_status = status;
    } in
    if status == 0
    then record noted { bot_success_count = add64 r.bot_success_count 1 }
    else if status == 1
    then record noted { bot_failed_count = add64 r.bot_failed_count 1 }
    else if status == 2
    then record noted { bot_phase_error_count = add64 r.bot_phase_error_count 1 }
    else noted

-- The status is both recorded and sent.
pub answer : ℕ → ℕ → ℕ → ℕ → ℕ → Block → Machine → ℤ × Option BotResult × Block × Machine
unfolding fill_csw record_status
answer i tag residue status transferred b m = (
  pos 0,
  some (fill_csw tag residue status transferred),
  b,
  with_slot i (record_status tag residue status) m,
)

-- What follows the command: a result that is not 0 is a phase error.
pub bot_finish : ℕ → ℕ → ℕ → Outcome → ℤ × Option BotResult × Block × Machine
unfolding answer
bot_finish i tag transfer_len (pos zero, some r, b, m) =
    answer i tag (if ltb transfer_len r.residue then transfer_len else r.residue)
      (if r.status == 0 then 0 else 1) r.data_transferred b m
bot_finish i tag transfer_len (result, r, b, m) = answer i tag transfer_len 2 0 b m

module _ (d : Driver Machine) where
  pub bot_transfer : ℕ → ℕ → ℕ → ℕ → ℕ → Block → Machine → ℤ × Option BotResult × Block × Machine
  unfolding bot_finish answer
  bot_transfer interface cbw cbw_len address data_len b m =
      elim (record_find_by_interface interface m.storages) [
        | none ↦ (neg 22, none, b, m)
        | some i ↦
            let tag = read_le32 m.ram (cbw + 4) in
            let transfer_len = read_le32 m.ram (cbw + 8) in
            let cdb_len = m.ram (cbw + 14) in
            let counted =
              with_slot i (λ r. record r { bot_command_count = add64 r.bot_command_count 1 }) m in
            let data_out = transfer_len /= 0 && (m.ram (cbw + 12) / 128 % 2 == 0) in
            if cbw == 0 || ltb cbw_len 31
            then (neg 22, none, b, m)
            else if read_le32 m.ram cbw /= cbw_signature
                || m.ram (cbw + 13) /= 0
                || cdb_len == 0
                || ltb 16 cdb_len
            then (neg 22, none, b, m)
            else if ltb data_len transfer_len || (transfer_len /= 0 && address == 0)
            then answer i tag transfer_len 2 0 b counted
            else bot_finish i tag transfer_len (
                scsi_command d interface (cbw + 15) cdb_len address transfer_len data_out b counted)
      ]

pub bot_reset : ℕ → Machine → Machine
bot_reset interface m = elim (record_find_by_interface interface m.storages) [
  | none ↦ m
  | some i ↦
      with_slot i
        (λ r. record r {
          bot_reset_count = add64 r.bot_reset_count 1;
          last_bot_status = 0;
          last_bot_residue = 0;
        })
        m
]

-- The command block of a host: the bytes of the buffer, which are 0 first.
pub build_bot_cbw : ℕ → ℕ → Bool → List ℕ → List ℕ
unfolding le32
build_bot_cbw tag transfer_len data_in cdb =
    le32 cbw_signature
    ++ le32 tag
    ++ le32 transfer_len
    ++ ((if data_in then 128 else 0) ∷ 0 ∷ length cdb % 256 ∷ [])
    ++ cdb
    ++ replicate (16 - length cdb) 0
