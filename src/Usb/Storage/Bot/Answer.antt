-- ===== src/Usb/Storage/Bot/Answer.antt =====
-- What a host gets back from the bulk-only transport of src/linux_subsystem/usb/storage.c.
use kobox.Prelude.{
  Bool-cases, List, add64, arith, false, get_or, inl, inr, length, ltb, negsuc, none, pos, refl,
  some, suc, u32_mod, zero, ℕ, ◌%◌, ◌&&◌, ◌+◌, ◌/=◌, ◌/◌, ◌<◌, ◌==◌, ◌||◌, ◌≡◌, ◌≢◌, ◌≤◌,
}
use kobox.Block.State.{Block}
use kobox.Block.Io.{Driver}
use kobox.Usb.Storage.State.{Bytes}
use kobox.Usb.Storage.Table.{Machine, record_find_by_interface, with_slot}
use kobox.Usb.Storage.Scsi.{read_le32, le32}
use kobox.Usb.Storage.Command.{Outcome}
use kobox.Usb.Storage.Command.Balance.{IsBalanced, scsi_command-IsBalanced}
use kobox.Usb.Storage.Bot.{
  BotResult, cbw_signature, csw_signature, fill_csw, answer, bot_finish, bot_transfer,
}

-- A status block: what a host reads from the bytes at 0, 4, 8 and 12.
abbrev pub IsStatusBlock : ℕ → ℕ → ℕ → List ℕ → Type 0
IsStatusBlock tag residue status csw =
    (length csw ≡ 13)
    × (read_le32 (λ i. get_or csw i 0) 0 ≡ csw_signature)
    × (read_le32 (λ i. get_or csw i 0) 4 ≡ tag)
    × (read_le32 (λ i. get_or csw i 0) 8 ≡ residue)
    × (get_or csw 12 0 ≡ status)

fill_csw-IsStatusBlock :
    (tag residue status transferred : ℕ)
    → tag < u32_mod
    → residue < u32_mod
    → IsStatusBlock tag residue status (fill_csw tag residue status transferred).csw
unfolding read_le32 le32 fill_csw
fill_csw-IsStatusBlock tag residue status transferred h g =
    (refl, omega arith, omega arith, omega arith, refl)

-- The command block that a device accepts.
abbrev pub IsCommandBlock : Bytes → ℕ → ℕ → Type 0
IsCommandBlock ram cbw cbw_len =
    (cbw ≢ 0)
    × (31 ≤ cbw_len)
    × (read_le32 ram cbw ≡ cbw_signature)
    × (ram (cbw + 13) ≡ 0)
    × (1 ≤ ram (cbw + 14))
    × (ram (cbw + 14) ≤ 16)

-- What a host may be told of a command with the tag, for a number of bytes.
abbrev pub Answers : ℕ → ℕ → BotResult → Type 0
Answers tag transfer_len r =
    (r.tag ≡ tag)
    × (r.data_transferred + r.residue ≡ transfer_len)
    × (r.status ≤ 2)
    × IsStatusBlock tag r.residue r.status r.csw

answer-Answers :
    (i tag residue status transferred transfer_len : ℕ) (b : Block) (m : Machine)
    → tag < u32_mod
    → transfer_len < u32_mod
    → status ≤ 2
    → transferred + residue ≡ transfer_len
    → (r : BotResult) × ((answer i tag residue status transferred b m).0 ≡ pos 0)
      × ((answer i tag residue status transferred b m).1 ≡ some r)
      × Answers tag transfer_len r
unfolding answer fill_csw
answer-Answers i tag residue status transferred transfer_len b m h g s sum = (
  fill_csw tag residue status transferred,
  refl,
  refl,
  (refl, sum, s, fill_csw-IsStatusBlock tag residue status transferred h (omega arith)),
)

bot_finish-Answers :
    (i tag transfer_len : ℕ) (o : Outcome)
    → tag < u32_mod
    → transfer_len < u32_mod
    → IsBalanced transfer_len o.1
    → (r : BotResult) × ((bot_finish i tag transfer_len o).0 ≡ pos 0)
      × ((bot_finish i tag transfer_len o).1 ≡ some r)
      × Answers tag transfer_len r
unfolding bot_finish
bot_finish-Answers i tag n (pos zero, none, b, m) h g s =
    answer-Answers i tag n 2 0 n b m h g (omega arith) (omega arith)
bot_finish-Answers i tag n (pos (suc k), r, b, m) h g s =
    answer-Answers i tag n 2 0 n b m h g (omega arith) (omega arith)
bot_finish-Answers i tag n (negsuc k, r, b, m) h g s =
    answer-Answers i tag n 2 0 n b m h g (omega arith) (omega arith)
bot_finish-Answers i tag n (pos zero, some r, b, m) h g s =
    let residue : ltb n r.residue ≡ false = ground arith in
    elim (Bool-cases (r.status == 0)) [
      | inl e ↦
          rw (residue, e)
            (answer-Answers i tag r.residue 0 r.data_transferred n b m h g (omega arith) s)
      | inr e ↦
          rw (residue, e)
            (answer-Answers i tag r.residue 1 r.data_transferred n b m h g (omega arith) s)
    ]

read_le32-lt : (ram : Bytes) (p : ℕ) → ((i : ℕ) → ram i < 256) → read_le32 ram p < u32_mod
unfolding read_le32
read_le32-lt ram p h =
    let a = h p in let b = h (p + 1) in let c = h (p + 2) in let e = h (p + 3) in omega arith

module _ (d : Driver Machine) where
  -- A transfer for an interface with a storage record, by a command block that a device accepts,
  -- answers 0 and a status block of 13 bytes with the signature, the tag of the command, a status
  -- of at most 2, and a residue which with the bytes transferred makes up the length that the
  -- command asked for. So it is for every opcode, every driver of the disk and every buffer.
  pub bot_transfer-Answers :
      (interface cbw cbw_len address data_len : ℕ) (b : Block) (m : Machine) {i : ℕ}
      → ((j : ℕ) → m.ram j < 256)
      → record_find_by_interface interface m.storages ≡ some i
      → IsCommandBlock m.ram cbw cbw_len
      → (r : BotResult) × ((bot_transfer d interface cbw cbw_len address data_len b m).0 ≡ pos 0)
        × ((bot_transfer d interface cbw cbw_len address data_len b m).1 ≡ some r)
        × Answers (read_le32 m.ram (cbw + 4)) (read_le32 m.ram (cbw + 8)) r
  unfolding bot_transfer
  bot_transfer-Answers interface cbw cbw_len address data_len b m {i} bytes found c =
      let tag = read_le32-lt m.ram (cbw + 4) bytes in
      let len = read_le32-lt m.ram (cbw + 8) bytes in
      let there : (cbw == 0 || ltb cbw_len 31) ≡ false = ground (arith, c.0, c.1) in
      let signed : (read_le32 m.ram cbw /= cbw_signature) ≡ false = ground (arith, c.2) in
      let lun : (m.ram (cbw + 13) /= 0) ≡ false = ground (arith, c.3) in
      let short : (m.ram (cbw + 14) == 0) ≡ false = ground (arith, c.4) in
      let long : ltb 16 (m.ram (cbw + 14)) ≡ false = ground (arith, c.5) in
      let data_len_lem =
        answer-Answers i (read_le32 m.ram (cbw + 4)) (read_le32 m.ram (cbw + 8)) 2 0
          (read_le32 m.ram (cbw + 8)) b
          (with_slot i (λ r. record r { bot_command_count = add64 r.bot_command_count 1 }) m) tag
          len (omega arith) (omega arith) in
      let command_lem =
        bot_finish-Answers i (read_le32 m.ram (cbw + 4)) (read_le32 m.ram (cbw + 8)) _ tag len (
          scsi_command-IsBalanced (read_le32 m.ram (cbw + 8)) len d interface (cbw + 15)
            (m.ram (cbw + 14)) address
            (read_le32 m.ram (cbw + 8) /= 0 && (m.ram (cbw + 12) / 128 % 2 == 0)) b
            (with_slot i (λ r. record r { bot_command_count = add64 r.bot_command_count 1 }) m)) in
      rw (bot_transfer, found, there, signed, lun, short, long)
        (elim (Bool-cases (
          ltb data_len (read_le32 m.ram (cbw + 8))
          || (read_le32 m.ram (cbw + 8) /= 0 && address == 0))) [
            | inl e ↦ rw e data_len_lem
            | inr e ↦ rw e command_lem
          ])
