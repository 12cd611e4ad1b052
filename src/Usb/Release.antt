-- ===== src/Usb/Release.antt =====
-- What src/linux_subsystem/usb/usb.c unlinks with a device, an interface, an endpoint or a host
-- controller.
pub mod Filters
pub mod Gone
mod Tests
use kobox.Prelude.{List, [], if◌then◌else◌, none, some, ℕ, ◌==◌, ◌∷◌}
use kobox.Keyed
use kobox.Usb.State.{
  Usb, Device, Interface, Endpoint, Urb, Hcd, Note, remove_interface, pointer_is_error_or_low,
  reject,
}
use kobox.Usb.Records.{udev_key, interface_key, endpoint_key}

unfoldable pub endpoint_records_release_for_interface : ℕ → Usb → Usb
unfolding reject
endpoint_records_release_for_interface interface u =
    if interface == 0
    then u
    else record u { endpoints = reject (λ e. e.interface == interface) u.endpoints }

unfoldable pub endpoint_records_release_for_udev : ℕ → Usb → Usb
unfolding reject
endpoint_records_release_for_udev udev u =
    if udev == 0 then u else record u { endpoints = reject (λ e. e.udev == udev) u.endpoints }

-- What is done for an interface before its record is unlinked.
pub release_interface : ℕ → Usb → Usb
unfolding endpoint_records_release_for_interface
release_interface interface u =
    endpoint_records_release_for_interface interface
      (record u { notes = remove_interface interface ∷ u.notes })

-- The loop over the interface records: those that stay, and the rest of the state.
pub release_interfaces : ℕ → List Interface → Usb → List Interface × Usb
release_interfaces udev [] u = ([], u)
release_interfaces udev (i ∷ is) u =
    let hit = i.udev == udev in
    let rest = release_interfaces udev is (if hit then release_interface i.interface u else u) in
    if hit then rest else (i ∷ rest.0, rest.1)

pub interface_records_release_for_udev : ℕ → Usb → Usb
unfolding release_interfaces
interface_records_release_for_udev udev u =
    if udev == 0
    then u
    else let rest = release_interfaces udev u.interfaces u in
      record (rest.1) { interfaces = rest.0 }

-- What is done for a device before its record is unlinked.
pub release_udev : ℕ → Usb → Usb
unfolding interface_records_release_for_udev endpoint_records_release_for_udev
release_udev udev u =
    endpoint_records_release_for_udev udev (interface_records_release_for_udev udev u)

pub release_devices : ℕ → List Device → Usb → List Device × Usb
release_devices hcd [] u = ([], u)
release_devices hcd (d ∷ ds) u =
    let hit = d.hcd == hcd in
    let rest = release_devices hcd ds (if hit then release_udev d.udev u else u) in
    if hit then rest else (d ∷ rest.0, rest.1)

pub device_records_release_for_hcd : ℕ → Usb → Usb
unfolding release_devices
device_records_release_for_hcd hcd u =
    if pointer_is_error_or_low hcd
    then u
    else let rest = release_devices hcd u.devices u in record (rest.1) { devices = rest.0 }

pub device_remove : ℕ → Usb → Usb
unfolding release_udev
device_remove udev u = elim (Keyed.find udev_key udev u.devices) [
  | none ↦ u
  | some _ ↦ record (release_udev udev u) { devices = Keyed.remove udev_key udev u.devices }
]

pub interface_remove : ℕ → Usb → Usb
unfolding release_interface
interface_remove interface u = elim (Keyed.find interface_key interface u.interfaces) [
  | none ↦ u
  | some _ ↦ record (release_interface interface u) {
    interfaces = Keyed.remove interface_key interface u.interfaces;
  }
]

pub endpoint_remove : ℕ → Usb → Usb
endpoint_remove endpoint u = record u { endpoints = Keyed.remove endpoint_key endpoint u.endpoints }

pub urb_records_release_for_hcd : ℕ → Usb → Usb
unfolding reject
urb_records_release_for_hcd hcd u =
    if pointer_is_error_or_low hcd then u else record u { urbs = reject (λ r. r.hcd == hcd) u.urbs }

abbrev pub self_key : Hcd → ℕ
self_key r = r.self

-- The storage of a controller that the record owns is freed as well.
pub hcd_release : ℕ → Usb → Usb
unfolding device_records_release_for_hcd urb_records_release_for_hcd
hcd_release self u = elim (Keyed.find self_key self u.hcds) [
  | none ↦ u
  | some r ↦
      let u' = urb_records_release_for_hcd r.hcd (device_records_release_for_hcd r.hcd u) in
      record u' { hcds = Keyed.remove self_key self u.hcds }
]
