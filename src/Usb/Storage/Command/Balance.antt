-- ===== src/Usb/Storage/Command/Balance.antt =====
-- The byte counts of SCSI results in src/linux_subsystem/usb/storage.c.
use kobox.Prelude.{
  Bool, Bool-cases, List, Option, Option-cases, [], arith, false, get_elem?, if◌then◌else◌, inl,
  inr, leb, length, ltb, mul64, neg, negsuc, none, not, pos, some, suc, true, u32_mod, zero, ℕ, ℤ,
  ◌&&◌, ◌+◌, ◌-◌, ◌<◌, ◌==◌, ◌||◌, ◌∷◌, ◌≡◌, ◌≤◌,
}
use kobox.Block.State.{Block}
use kobox.Block.Io.{Request, Driver, disk_read, disk_write}
use kobox.Usb.Storage.State.{Bytes, Storage}
use kobox.Usb.Storage.Table.{Machine, record_find_by_interface, with_slot}
use kobox.Usb.Storage.Scsi.{
  ScsiResult, result_good, check_condition, copy_limited, read_be16, read_be32, sense_data,
  inquiry_data, capacity_data,
}
use kobox.Usb.Storage.Command.{
  Outcome, refuse, refuse_field, reply, finish_transfer, scsi_transfer, scsi_dispatch, scsi_command,
  count_command,
}

-- The bytes transferred and the residue of a result make up the buffer's length.
abbrev pub IsBalanced : ℕ → Option ScsiResult → Type 0
IsBalanced buffer_len none = Unit
IsBalanced buffer_len (some r) = r.data_transferred + r.residue ≡ buffer_len

module _ (buffer_len : ℕ) (short : buffer_len < u32_mod) where
  good_lem : (t : ℕ) → t ≤ buffer_len → IsBalanced buffer_len (some (result_good t buffer_len))
  unfolding result_good
  good_lem t h =
      let fits : leb t buffer_len ≡ true = ground arith in
      let clamped : ltb (u32_mod - 1) (buffer_len - t) ≡ false = ground arith in
      rw (fits, clamped) (omega arith)

  refuse_lem : (key asc : ℕ) → IsBalanced buffer_len (some (check_condition key asc buffer_len))
  unfolding check_condition
  refuse_lem key asc =
      let clamped : ltb (u32_mod - 1) buffer_len ≡ false = ground arith in rw clamped (omega arith)

  if_lem :
      (c : Bool) (x y : Outcome)
      → IsBalanced buffer_len x.1
      → IsBalanced buffer_len y.1
      → IsBalanced buffer_len (if c then x else y).1
  if_lem true x y h g = h
  if_lem false x y h g = g

  copied_lem :
      (buffer : ℕ) (bytes : List ℕ) (ram : Bytes)
      → (copy_limited buffer buffer_len bytes ram).0 ≤ buffer_len
  unfolding copy_limited
  copied_lem buffer bytes ram = elim (Bool-cases (buffer == 0 || buffer_len == 0)) [
    | inl e ↦ rw e (omega arith)
    | inr e ↦ elim (Bool-cases (ltb (length bytes) buffer_len)) [
      | inl g ↦ rw (e, g) (ground arith)
      | inr g ↦ rw (e, g) (omega arith)
    ]
  ]

  reply_lem :
      (buffer : ℕ) (bytes : List ℕ) (b : Block) (m : Machine)
      → IsBalanced buffer_len (reply buffer buffer_len bytes b m).1
  unfolding reply
  reply_lem buffer bytes b m =
      good_lem (copy_limited buffer buffer_len bytes m.ram).0 (copied_lem buffer bytes m.ram)

  finish_lem :
      (i : ℕ) (write : Bool) (n : ℕ) (t : ℤ × Block × Machine)
      → n ≤ buffer_len
      → IsBalanced buffer_len (finish_transfer i write n buffer_len t).1
  unfolding finish_transfer
  finish_lem i write n (pos zero, b, m) h = good_lem n h
  finish_lem i write n (pos (suc k), b, m) h = refuse_lem 5 36
  finish_lem i write n (negsuc k, b, m) h =
      if_lem (k == 33) (refuse i 5 33 buffer_len b m) (refuse_field i buffer_len b m)
        (refuse_lem 5 33) (refuse_lem 5 36)

  module _ (d : Driver Machine) where
    transfer_lem :
        (i : ℕ) (r : Storage) (write : Bool) (cdb cdb_len buffer : ℕ) (out : Bool) (b : Block)
        (m : Machine)
        → IsBalanced buffer_len (scsi_transfer d i r write cdb cdb_len buffer buffer_len out b m).1
    unfolding scsi_transfer
    transfer_lem i r write cdb cdb_len buffer out b m =
        let n = mul64 (read_be16 m.ram (cdb + 7)) r.sector_size in
        let request : Request = record {
          sector = read_be32 m.ram (cdb + 2);
          buffer = buffer;
          byte_count = n;
        } in
        if_lem (ltb cdb_len 10) _ _ (refuse_lem 5 36) (
          if_lem ((write && not out) || (not write && out)) _ _ (refuse_lem 5 36) (
            if_lem (read_be16 m.ram (cdb + 7) == 0) _ _ (good_lem 0 (omega arith)) (
              if_lem
                (ltb r.capacity_sectors (read_be32 m.ram (cdb + 2) + read_be16 m.ram (cdb + 7))) _ _
                (refuse_lem 5 33)
                (elim (Bool-cases (buffer == 0 || ltb buffer_len n)) [
                  | inl e ↦ rw e (refuse_lem 5 36)
                  | inr e ↦
                      let fits : n ≤ buffer_len = ground arith in
                      rw e (
                        finish_lem i write n
                          (if write
                            then disk_write d r.disk request b m
                            else disk_read d r.disk request b m)
                          fits)
                ]))))

    dispatch_lem :
        (i : ℕ) (r : Storage) (cdb cdb_len buffer : ℕ) (out : Bool) (b : Block) (m : Machine)
        → IsBalanced buffer_len (scsi_dispatch d i r cdb cdb_len buffer buffer_len out b m).1
    unfolding scsi_dispatch
    dispatch_lem i r cdb cdb_len buffer out b m =
        if_lem (m.ram cdb == 0 || m.ram cdb == 27 || m.ram cdb == 53) _ _ (good_lem 0 (omega arith))
          (if_lem (m.ram cdb == 3) _ _ (reply_lem buffer (sense_data r) b m) (
            if_lem (m.ram cdb == 18) _ _
              (if_lem out _ _ (refuse_lem 5 36) (reply_lem buffer inquiry_data b m))
              (if_lem (m.ram cdb == 26) _ _ (reply_lem buffer (3 ∷ 0 ∷ 0 ∷ 0 ∷ []) b m) (
                if_lem (m.ram cdb == 37) _ _
                  (if_lem out _ _ (refuse_lem 5 36) (reply_lem buffer (capacity_data r) b m))
                  (if_lem (m.ram cdb == 40) _ _ (transfer_lem i r false cdb cdb_len buffer out b m)
                    (if_lem (m.ram cdb == 42) _ _ (transfer_lem i r true cdb cdb_len buffer out b m)
                      (refuse_lem 5 32)))))))

    pub scsi_command-IsBalanced :
        (interface cdb cdb_len buffer : ℕ) (out : Bool) (b : Block) (m : Machine)
        → IsBalanced buffer_len (scsi_command d interface cdb cdb_len buffer buffer_len out b m).1
    unfolding scsi_command
    scsi_command-IsBalanced interface cdb cdb_len buffer out b m =
        elim (Option-cases (record_find_by_interface interface m.storages)) [
          | inl e ↦ rw (scsi_command, e) tt
          | inr (i, e) ↦ elim (Option-cases (get_elem? m.storages i)) [
            | inl g ↦
                rw (scsi_command, e, g)
                  (if_lem (cdb == 0 || cdb_len == 0) (neg 22, none, b, m) (neg 22, none, b, m) tt
                    tt)
            | inr (r, g) ↦
                rw (scsi_command, e, g)
                  (if_lem (cdb == 0 || cdb_len == 0) _ _ tt (
                    if_lem (r.medium_present == 0) _ _ (refuse_lem 2 58) (
                      dispatch_lem i r cdb cdb_len buffer out b
                        (with_slot i (count_command (m.ram cdb)) m))))
          ]
        ]
