-- ===== src/Usb/Storage/Table.antt =====
-- The table of records of src/linux_subsystem/usb/storage.c. A record is named by its slot.
use kobox.Prelude.{
  Bool, List, Option, [], get_elem?, if◌then◌else◌, is_zero, none, not, set, some, true, ℕ, ℤ, ◌&&◌,
  ◌+◌, ◌/=◌, ◌==◌, ◌||◌, ◌∷◌,
}
use kobox.Usb.State.{Endpoint}
use kobox.Usb.Storage.State.{Bytes, Storage, zero_storage}

-- The table of KB_USB_STORAGE_MAX records, and memory.
pub record Machine : Type 0 where
  pub storages : List Storage
  pub ram : Bytes

abbrev pub with_slot : ℕ → (Storage → Storage) → Machine → Machine
with_slot i f m = elim (get_elem? m.storages i) [
  | none ↦ m
  | some r ↦ record m { storages = set m.storages i (f r) }
]

-- The search of the table from slot `i`; `none` is NULL.
unfoldable pub find_slot : (Storage → Bool) → ℕ → List Storage → Option ℕ
find_slot p i [] = none
find_slot p i (r ∷ rs) =
    let rest = find_slot p (i + 1) rs in if r.active && p r then some i else rest

-- The searches by an address, which find nothing for NULL.
pub find_by : (Storage → ℕ) → ℕ → List Storage → Option ℕ
unfolding find_slot
find_by field a rs = if a == 0 then none else find_slot (λ r. field r == a) 0 rs

unfoldable pub record_find_by_interface : ℕ → List Storage → Option ℕ
unfolding find_by
record_find_by_interface = find_by λ r. r.interface

pub record_find_by_host_private : ℕ → List Storage → Option ℕ
unfolding find_by
record_find_by_host_private = find_by λ r. r.driver_data

pub record_find_by_host : ℕ → List Storage → Option ℕ
unfolding find_by
record_find_by_host = find_by λ r. r.scsi_host

pub record_find_by_disk : ℕ → List Storage → Option ℕ
unfolding find_by
record_find_by_disk = find_by λ r. r.disk

pub record_find_by_linux_device : ℕ → List Storage → Option ℕ
unfolding find_slot
record_find_by_linux_device dev rs =
    if dev == 0
    then none
    else find_slot (λ r. r.linux_device == dev || r.parent_linux_device == dev) 0 rs

-- The loop with the slot found so far; a second one ends it.
only_from : Option ℕ → ℕ → List Storage → Option ℕ
only_from found i [] = found
only_from found i (r ∷ rs) =
    let next : Option ℕ = elim found [ none ↦ only_from (some i) (i + 1) rs | some _ ↦ none ] in
    let rest = only_from found (i + 1) rs in if r.active && r.scsi_host == 0 then next else rest

pub record_only_without_host : List Storage → Option ℕ
unfolding only_from
record_only_without_host = only_from none 0

-- The first slot that is not active.
free_slot : ℕ → List Storage → Option ℕ
free_slot i [] = none
free_slot i (r ∷ rs) = let rest = free_slot (i + 1) rs in if r.active then rest else some i

-- `capacity` is default_capacity_sectors(), which reads the environment.
pub record_for_interface : ℕ → ℕ → List Storage → Option ℕ × List Storage
unfolding record_find_by_interface free_slot
record_for_interface capacity interface rs = elim (record_find_by_interface interface rs) [
  | some i ↦ (some i, rs)
  | none ↦ if interface == 0 then (none, rs) else elim (free_slot 0 rs) [
    | none ↦ (none, rs)
    | some i ↦ (
      some i,
      set rs i (record zero_storage {
        active = true;
        interface = interface;
        sector_size = 512;
        capacity_sectors = capacity;
        medium_present = 1;
      }),
    )
  ]
]

pub storage_attach_endpoint : Endpoint → Storage → Storage
storage_attach_endpoint e r =
    if e.type /= 2
    then r
    else if e.direction_in /= 0
    then record r { bulk_in_endpoint = e.address }
    else record r { bulk_out_endpoint = e.address }

pub endpoint_matches_record : Endpoint → Storage → Storage
unfolding storage_attach_endpoint
endpoint_matches_record e r = if e.interface == r.interface then storage_attach_endpoint e r else r

-- The endpoint records are those of src/linux_subsystem/usb/usb.c.
pub storage_collect_endpoints : List Endpoint → Storage → Storage
unfolding endpoint_matches_record
storage_collect_endpoints [] r = r
storage_collect_endpoints (e ∷ es) r = storage_collect_endpoints es (endpoint_matches_record e r)

snapshot_of : Option ℕ → List Storage → Option Storage
snapshot_of none rs = none
snapshot_of (some i) rs = get_elem? rs i

-- The snapshots; `none` is -EINVAL.
pub storage_snapshot : ℕ → List Storage → Option Storage
unfolding snapshot_of record_find_by_interface
storage_snapshot interface rs = snapshot_of (record_find_by_interface interface rs) rs

pub storage_snapshot_by_disk : ℕ → List Storage → Option Storage
unfolding snapshot_of record_find_by_disk
storage_snapshot_by_disk disk rs = snapshot_of (record_find_by_disk disk rs) rs

pub storage_count : List Storage → ℕ
storage_count [] = 0
storage_count (r ∷ rs) = let rest = storage_count rs in if r.active then rest + 1 else rest

-- The loop with a callback that leaves the table as it is.
pub storage_for_each : {W : Type 0} → (Storage → W → ℤ × W) → List Storage → W → ℕ × W
storage_for_each f [] w = (0, w)
storage_for_each f (r ∷ rs) w =
    let skipped = storage_for_each f rs w in
    let called = f r w in
    let rest = storage_for_each f rs called.1 in
    if not r.active
    then skipped
    else if is_zero called.0
    then (rest.0 + 1, rest.1)
    else (1, called.1)
