-- ===== src/Usb/State.antt =====
-- The record lists of src/linux_subsystem/usb/usb.c. Pointers are numbers, and NULL is 0. What the
-- code tells src/linux_subsystem/usb/storage.c is a list of notes, the newest first.
use kobox.Keyed
use kobox.Prelude.{
  Bool, List, Option, [], false, if◌then◌else◌, is_zero, leb, ltb, none, some, true, u64_mod, ℕ, ℤ,
  ◌+◌, ◌-◌, ◌==◌, ◌||◌, ◌∷◌,
}

-- kb_usb_hcd_record_t; `self` is the record's own address.
pub record Hcd : Type 0 where
  pub self : ℕ
  pub primary : ℕ
  pub owner : ℕ
  pub driver : ℕ
  pub hcd : ℕ
  pub primary_hcd : ℕ
  pub regs : ℕ
  pub owns_storage : Bool
  pub irq : ℕ
  pub irq_registered : ℕ
  pub added : ℕ
  pub irq_count : ℕ
  pub died_count : ℕ
  pub lost_power_count : ℕ
  pub root_hub_poll_count : ℕ
  pub root_hub_resume_count : ℕ
  pub port_resume_start_count : ℕ
  pub port_resume_end_count : ℕ
  pub wakeup_notification_count : ℕ
  pub remote_wakeup_quirk_count : ℕ
  pub hub_event_bits : ℕ

-- kb_usb_urb_dma_update_t
pub record UrbDmaUpdate : Type 0 where
  pub transfer_buffer : ℕ
  pub setup_packet : ℕ
  pub transfer_dma : ℕ
  pub setup_dma : ℕ
  pub transfer_buffer_length : ℕ
  pub actual_length : ℕ
  pub transfer_flags : ℕ
  pub dma_map_flags : ℕ
  pub mem_flags : ℕ

-- kb_usb_urb_record_t
pub record Urb : Type 0 where
  pub hcd : ℕ
  pub urb : ℕ
  pub transfer_buffer : ℕ
  pub setup_packet : ℕ
  pub transfer_dma : ℕ
  pub setup_dma : ℕ
  pub transfer_buffer_length : ℕ
  pub actual_length : ℕ
  pub transfer_flags : ℕ
  pub dma_map_flags : ℕ
  pub status : ℤ
  pub linked : Bool
  pub mapped : Bool
  pub link_count : ℕ
  pub unlink_count : ℕ
  pub map_count : ℕ
  pub unmap_count : ℕ
  pub submit_count : ℕ
  pub kill_count : ℕ
  pub giveback_count : ℕ
  pub last_unlink_status : ℤ
  pub last_submit_status : ℤ
  pub last_giveback_status : ℤ
  pub last_mem_flags : ℕ
  pub last_submit_mem_flags : ℕ

-- kb_usb_device_snapshot_t and kb_usb_device_update_t, which have the same fields; a C string is
-- the list of its bytes.
pub record Device : Type 0 where
  pub hcd : ℕ
  pub udev : ℕ
  pub linux_device : ℕ
  pub parent_linux_device : ℕ
  pub bus : ℕ
  pub active_config : ℕ
  pub devnum : ℕ
  pub portnum : ℕ
  pub speed : ℕ
  pub state : ℕ
  pub vendor_id : ℕ
  pub product_id : ℕ
  pub bcd_device : ℕ
  pub device_class : ℕ
  pub device_subclass : ℕ
  pub device_protocol : ℕ
  pub max_packet_size0 : ℕ
  pub configuration_value : ℕ
  pub interface_count : ℕ
  pub devpath : List ℕ

-- kb_usb_interface_snapshot_t and kb_usb_interface_update_t
pub record Interface : Type 0 where
  pub udev : ℕ
  pub interface : ℕ
  pub linux_device : ℕ
  pub parent_linux_device : ℕ
  pub driver : ℕ
  pub driver_data : ℕ
  pub cur_altsetting : ℕ
  pub interface_number : ℕ
  pub alternate_setting : ℕ
  pub endpoint_count : ℕ
  pub interface_class : ℕ
  pub interface_subclass : ℕ
  pub interface_protocol : ℕ

-- kb_usb_endpoint_snapshot_t and kb_usb_endpoint_update_t
pub record Endpoint : Type 0 where
  pub udev : ℕ
  pub interface : ℕ
  pub endpoint : ℕ
  pub address : ℕ
  pub attributes : ℕ
  pub interval : ℕ
  pub type : ℕ
  pub direction_in : ℕ
  pub max_packet_size : ℕ

-- kb_usb_driver_snapshot_t
pub record Driver : Type 0 where
  pub driver : ℕ
  pub owner : ℕ
  pub registered : Bool
  pub last_register_status : ℤ
  pub register_count : ℕ
  pub deregister_count : ℕ
  pub module_name : List ℕ

-- The calls of kb_usb_storage_subsystem_*.
pub data Note : Type 0 where
  observe_interface : Interface → Note
  remove_interface : ℕ → Note
  observe_endpoint : Endpoint → Note
  driver_registered : ℕ → Option (List ℕ) → Note
  driver_deregistered : ℕ → Note

pub record Usb : Type 0 where
  pub hcds : List Hcd
  pub urbs : List Urb
  pub devices : List Device
  pub interfaces : List Interface
  pub endpoints : List Endpoint
  pub drivers : List Driver
  pub notes : List Note

abbrev pub pointer_is_error_or_low : ℕ → Bool
pointer_is_error_or_low p = ltb p 4096 || leb (u64_mod - 1 - 4095) p

-- The cursor loop that unlinks every record with `p`.
unfoldable pub reject {ℓ} : {A : Type ℓ} → (A → Bool) → List A → List A
reject p [] = []
reject p (x ∷ xs) = let rest = reject p xs in if p x then rest else x ∷ rest

-- The loops over the records with a callback, which stop when it does not answer 0: how many it
-- was called with, and what it left. A callback keeps the lists as they are.
unfoldable pub for_each {ℓ} : {A : Type ℓ} {W : Type 0} → (A → W → ℤ × W) → ℕ → List A → W → ℕ × W
for_each f visited [] w = (visited, w)
for_each f visited (x ∷ xs) w =
    let called = f x w in
    let rest = for_each f (visited + 1) xs called.1 in
    if is_zero called.0 then rest else (visited + 1, called.1)

-- The searches that make a record in front of the list if there is none: whether there is one then.
unfoldable pub find_or_add {ℓ} : {A : Type ℓ} → (A → ℕ) → A → Bool → ℕ → List A → Bool × List A
unfolding Keyed.find
find_or_add key fresh got_record k xs = if k == 0 then (false, xs) else elim (Keyed.find key k xs) [
  | some _ ↦ (true, xs)
  | none ↦ if got_record then (true, fresh ∷ xs) else (false, xs)
]
