-- ===== src/Usb/Storage/Events.antt =====
-- What src/linux_subsystem/usb/storage.c does when the USB core, a driver or the SCSI layer reports.
use kobox.Prelude.{
  Bool, List, Option, [], false, get_elem?, if◌then◌else◌, inc32, neg, none, not, pos, set, some,
  true, ℕ, ℤ, ◌&&◌, ◌+◌, ◌/=◌, ◌==◌, ◌||◌, ◌∷◌,
}
use kobox.Block.State.{Block}
use kobox.Usb.State.{Interface, Endpoint}
use kobox.Usb.Storage.State.{Storage, zero_storage}
use kobox.Usb.Storage.Table.{
  record_find_by_interface, record_find_by_host_private, record_find_by_linux_device,
  record_find_by_host, record_only_without_host, record_for_interface, storage_attach_endpoint,
  storage_collect_endpoints,
}
use kobox.Usb.Storage.Disk.{Objects, storage_ensure_block, storage_release_block}

-- The table, the block layer, `storage_driver_registered`, and the endpoint records of
-- src/linux_subsystem/usb/usb.c.
pub record System : Type 0 where
  pub table : List Storage
  pub block : Block
  pub driver_known : Bool
  pub endpoint_records : List Endpoint

-- A change of the record of a slot, and of the block layer with it.
pub change_slot : ℕ → (Storage → Block → ℤ × Storage × Block) → System → ℤ × System
change_slot i f s = elim (get_elem? s.table i) [
  | none ↦ (pos 0, s)
  | some r ↦ let t = f r s.block in (t.0, record s { table = set s.table i t.1; block = t.2 })
]

-- `(void)storage_ensure_block(record)`, where the device has a driver.
pub ensure_if : Bool → Objects → ℕ → Storage → Block → ℤ × Storage × Block
ensure_if wanted o i r b = if wanted then storage_ensure_block o i r b else (pos 0, r, b)

abbrev has_driver : System → Storage → Bool
has_driver s r = s.driver_known || r.driver /= 0 || r.driver_data /= 0

pub storage_observe_interface : ℕ → Objects → Interface → System → System
unfolding change_slot ensure_if
storage_observe_interface capacity o f s =
    if f.interface_class /= 8
    then s
    else let made = record_for_interface capacity f.interface s.table in
      elim (made.0) [
        | none ↦ record s { table = made.1 }
        | some i ↦
            (change_slot i
              (λ r b.
                ensure_if (s.driver_known || f.driver /= 0 || f.driver_data /= 0) o i
                  (storage_collect_endpoints s.endpoint_records (record r {
                    udev = f.udev;
                    interface = f.interface;
                    linux_device = f.linux_device;
                    parent_linux_device = f.parent_linux_device;
                    driver = f.driver;
                    driver_data = f.driver_data;
                    interface_number = f.interface_number;
                    subclass = f.interface_subclass;
                    protocol = f.interface_protocol;
                  }))
                  b)
              (record s { table = made.1 })).1
      ]

pub storage_observe_endpoint : Objects → Endpoint → System → System
unfolding change_slot ensure_if
storage_observe_endpoint o e s = elim (record_find_by_interface e.interface s.table) [
  | none ↦ s
  | some i ↦
      (change_slot i (λ r b. ensure_if (has_driver s r) o i (storage_attach_endpoint e r) b) s).1
]

pub storage_remove_interface : ℕ → System → System
unfolding change_slot
storage_remove_interface interface s = elim (record_find_by_interface interface s.table) [
  | none ↦ s
  | some i ↦ (change_slot i (λ r b. (pos 0, zero_storage, (storage_release_block r b).1)) s).1
]

-- The loop over the table, from slot `i`.
ensure_all : (ℕ → Objects) → ℕ → List Endpoint → ℕ → List Storage → Block → List Storage × Block
ensure_all o driver es i [] b = ([], b)
ensure_all o driver es i (r ∷ rs) b =
    let made =
      if r.active
      then storage_ensure_block (o i) i
          (storage_collect_endpoints es (record r { driver = driver })) b
      else (pos 0, r, b) in
    let rest = ensure_all o driver es (i + 1) rs made.2 in (made.1 ∷ rest.0, rest.1)

starts_with : List ℕ → List ℕ → Bool
starts_with [] text = true
starts_with (c ∷ cs) [] = false
starts_with (c ∷ cs) (d ∷ ds) = (c == d) && starts_with cs ds

-- strstr of a text that is not empty
contains : List ℕ → List ℕ → Bool
contains part [] = false
contains part (d ∷ ds) = starts_with part (d ∷ ds) || contains part ds

-- "usb-storage" or "usb_storage"; `none` is NULL.
pub module_name_is_usb_storage : Option (List ℕ) → Bool
unfolding contains
module_name_is_usb_storage none = false
module_name_is_usb_storage (some name) =
    let storage : List ℕ = b's' ∷ b't' ∷ b'o' ∷ b'r' ∷ b'a' ∷ b'g' ∷ b'e' ∷ [] in
    contains (b'u' ∷ b's' ∷ b'b' ∷ b'-' ∷ storage) name
    || contains (b'u' ∷ b's' ∷ b'b' ∷ b'_' ∷ storage) name

pub storage_note_driver_registered : (ℕ → Objects) → ℕ → Option (List ℕ) → System → System
unfolding ensure_all module_name_is_usb_storage
storage_note_driver_registered o driver name s =
    if not (module_name_is_usb_storage name)
    then s
    else let t = ensure_all o driver s.endpoint_records 0 s.table s.block in
      record s { driver_known = true; table = t.0; block = t.1 }

pub storage_note_driver_deregistered : System → System
storage_note_driver_deregistered s = record s { driver_known = false }

abbrev or_else : Option ℕ → Option ℕ → Option ℕ
or_else (some i) o = some i
or_else none o = o

pub storage_note_scsi_host : Objects → ℕ → ℕ → ℕ → ℕ → System → System
unfolding change_slot
storage_note_scsi_host o host host_private dev dma_dev s =
    elim (or_else (record_find_by_host_private host_private s.table) (
      or_else (record_find_by_linux_device dev s.table) (
        or_else (record_find_by_linux_device dma_dev s.table)
          (record_only_without_host s.table)))) [
            | none ↦ s
            | some i ↦
                (change_slot i
                  (λ r b.
                    storage_ensure_block o i
                      (record r {
                        scsi_host = host;
                        scsi_host_private = host_private;
                        driver_data = if r.driver_data == 0 then host_private else r.driver_data;
                        add_host_count = inc32 r.add_host_count;
                      })
                      b)
                  s).1
          ]

pub storage_note_scsi_scan : Objects → ℕ → System → System
unfolding change_slot
storage_note_scsi_scan o host s = elim (record_find_by_host host s.table) [
  | none ↦ s
  | some i ↦
      (change_slot i
        (λ r b. storage_ensure_block o i (record r { scan_count = inc32 r.scan_count }) b) s).1
]

pub storage_remove_scsi_host : ℕ → System → System
unfolding change_slot
storage_remove_scsi_host host s = elim (record_find_by_host host s.table) [
  | none ↦ s
  | some i ↦
      (change_slot i
        (λ r b.
          let t = storage_release_block r b in
          (pos 0, record (t.0) { scsi_host = 0; scsi_host_private = 0 }, t.1))
        s).1
]

pub synthesize_mass_storage : ℕ → Objects → ℕ → ℕ → ℕ → ℕ → System → ℤ × System
unfolding change_slot ensure_if
synthesize_mass_storage capacity o udev interface linux_device parent_linux_device s =
    if interface == 0
    then (neg 22, s)
    else let made = record_for_interface capacity interface s.table in
      elim (made.0) [
        | none ↦ (neg 12, record s { table = made.1 })
        | some i ↦
            change_slot i
              (λ r b.
                ensure_if (has_driver s r) o i
                  (record r {
                    udev = udev;
                    interface = interface;
                    linux_device = linux_device;
                    parent_linux_device = parent_linux_device;
                    interface_number = 0;
                    subclass = 6;
                    protocol = 80;
                    bulk_in_endpoint = 129;
                    bulk_out_endpoint = 2;
                    medium_present = 1;
                  })
                  b)
              (record s { table = made.1 })
      ]
