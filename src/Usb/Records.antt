-- ===== src/Usb/Records.antt =====
-- Devices, interfaces, endpoints and drivers of src/linux_subsystem/usb/usb.c.
pub mod Snapshot
mod Tests
use kobox.Prelude.{
  Bool, List, Option, [], false, if◌then◌else◌, inc32, is_zero, length, neg, none, pos, some, take,
  ℕ, ℤ, ◌-◌, ◌==◌, ◌∷◌,
}
use kobox.Keyed
use kobox.Usb.State.{
  Usb, Device, Interface, Endpoint, Driver, Urb, Hcd, Note, observe_interface, remove_interface,
  observe_endpoint, driver_registered, driver_deregistered, pointer_is_error_or_low, reject,
  find_or_add, for_each,
}

abbrev pub udev_key : Device → ℕ
udev_key d = d.udev

abbrev pub interface_key : Interface → ℕ
interface_key i = i.interface

abbrev pub endpoint_key : Endpoint → ℕ
endpoint_key e = e.endpoint

abbrev pub driver_key : Driver → ℕ
driver_key d = d.driver

abbrev pub zero_device : Device
zero_device = record {
  hcd = 0;
  udev = 0;
  linux_device = 0;
  parent_linux_device = 0;
  bus = 0;
  active_config = 0;
  devnum = 0;
  portnum = 0;
  speed = 0;
  state = 0;
  vendor_id = 0;
  product_id = 0;
  bcd_device = 0;
  device_class = 0;
  device_subclass = 0;
  device_protocol = 0;
  max_packet_size0 = 0;
  configuration_value = 0;
  interface_count = 0;
  devpath = [];
}

abbrev pub zero_interface : Interface
zero_interface = record {
  udev = 0;
  interface = 0;
  linux_device = 0;
  parent_linux_device = 0;
  driver = 0;
  driver_data = 0;
  cur_altsetting = 0;
  interface_number = 0;
  alternate_setting = 0;
  endpoint_count = 0;
  interface_class = 0;
  interface_subclass = 0;
  interface_protocol = 0;
}

abbrev pub zero_endpoint : Endpoint
zero_endpoint = record {
  udev = 0;
  interface = 0;
  endpoint = 0;
  address = 0;
  attributes = 0;
  interval = 0;
  type = 0;
  direction_in = 0;
  max_packet_size = 0;
}

abbrev zero_driver : Driver
zero_driver = record {
  driver = 0;
  owner = 0;
  registered = false;
  last_register_status = pos 0;
  register_count = 0;
  deregister_count = 0;
  module_name = [];
}

pub device_record_for : Bool → ℕ → List Device → Bool × List Device
unfolding find_or_add
device_record_for got udev = find_or_add udev_key (record zero_device { udev = udev }) got udev

pub interface_record_for : Bool → ℕ → List Interface → Bool × List Interface
unfolding find_or_add
interface_record_for got i =
    find_or_add interface_key (record zero_interface { interface = i }) got i

pub endpoint_record_for : Bool → ℕ → List Endpoint → Bool × List Endpoint
unfolding find_or_add
endpoint_record_for got e = find_or_add endpoint_key (record zero_endpoint { endpoint = e }) got e

pub driver_record_for : Bool → ℕ → List Driver → Bool × List Driver
unfolding find_or_add
driver_record_for got d = find_or_add driver_key (record zero_driver { driver = d }) got d

-- `snprintf` into the device's buffer of KB_USB_DEVPATH_MAX bytes.
abbrev pub devpath_max : ℕ
devpath_max = 32

pub device_observe : Bool → Device → Usb → ℤ × Usb
unfolding device_record_for
device_observe got update u =
    if update.udev == 0
    then (neg 22, u)
    else let made = device_record_for got update.udev u.devices in
      if made.0
      then (
        pos 0,
        record u {
          devices =
              Keyed.modify udev_key update.udev
                (λ _. record update { devpath = take (devpath_max - 1) update.devpath }) made.1;
        },
      )
      else (neg 12, u)

pub interface_observe : Bool → Interface → Usb → ℤ × Usb
unfolding interface_record_for
interface_observe got update u =
    if update.interface == 0
    then (neg 22, u)
    else let made = interface_record_for got update.interface u.interfaces in
      if made.0
      then (
        pos 0,
        record u {
          interfaces = Keyed.modify interface_key update.interface (λ _. update) made.1;
          notes = observe_interface update ∷ u.notes;
        },
      )
      else (neg 12, u)

pub endpoint_observe : Bool → Endpoint → Usb → ℤ × Usb
unfolding endpoint_record_for
endpoint_observe got update u =
    if update.endpoint == 0
    then (neg 22, u)
    else let made = endpoint_record_for got update.endpoint u.endpoints in
      if made.0
      then (
        pos 0,
        record u {
          endpoints = Keyed.modify endpoint_key update.endpoint (λ _. update) made.1;
          notes = observe_endpoint update ∷ u.notes;
        },
      )
      else (neg 12, u)

-- `none` is a module name that is NULL.
pub driver_register : Bool → ℕ → ℕ → Option (List ℕ) → ℤ → Usb → Usb
unfolding driver_record_for
driver_register got driver owner module_name status u =
    let made = driver_record_for got driver u.drivers in
    if made.0
    then record u {
      drivers =
          Keyed.modify driver_key driver
            (λ d. record d {
              owner = owner;
              registered = is_zero status;
              last_register_status = status;
              register_count = inc32 d.register_count;
              module_name = elim module_name [ none ↦ d.module_name | some name ↦ take 63 name ];
            })
            made.1;
      notes = driver_registered driver module_name ∷ u.notes;
    }
    else u

pub driver_deregister : Bool → ℕ → Usb → Usb
unfolding driver_record_for
driver_deregister got driver u =
    let made = driver_record_for got driver u.drivers in
    if made.0
    then record u {
      drivers =
          Keyed.modify driver_key driver
            (λ d. record d { registered = false; deregister_count = inc32 d.deregister_count })
            made.1;
      notes = driver_deregistered driver ∷ u.notes;
    }
    else u

-- A search for NULL finds nothing.
pub find_record {ℓ} : {A : Type ℓ} → (A → ℕ) → ℕ → List A → Option A
find_record key k xs = if k == 0 then none else Keyed.find key k xs

pub device_snapshot : ℕ → Usb → Option Device
unfolding find_record
device_snapshot udev u = find_record udev_key udev u.devices

pub interface_snapshot : ℕ → Usb → Option Interface
unfolding find_record
interface_snapshot i u = find_record interface_key i u.interfaces

pub endpoint_snapshot : ℕ → Usb → Option Endpoint
unfolding find_record
endpoint_snapshot e u = find_record endpoint_key e u.endpoints

pub driver_snapshot : ℕ → Usb → Option Driver
unfolding find_record
driver_snapshot d u = find_record driver_key d u.drivers

pub device_count : Usb → ℕ
device_count u = length u.devices

pub interface_count : Usb → ℕ
interface_count u = length u.interfaces

pub endpoint_count : Usb → ℕ
endpoint_count u = length u.endpoints

pub driver_count : Usb → ℕ
driver_count u = length u.drivers

module _ {W : Type 0} where
  pub for_each_device : (Device → W → ℤ × W) → Usb → W → ℕ × W
  unfolding for_each
  for_each_device f u = for_each f 0 u.devices

  pub for_each_interface : (Interface → W → ℤ × W) → Usb → W → ℕ × W
  unfolding for_each
  for_each_interface f u = for_each f 0 u.interfaces

  pub for_each_endpoint : (Endpoint → W → ℤ × W) → Usb → W → ℕ × W
  unfolding for_each
  for_each_endpoint f u = for_each f 0 u.endpoints

  pub for_each_driver : (Driver → W → ℤ × W) → Usb → W → ℕ × W
  unfolding for_each
  for_each_driver f u = for_each f 0 u.drivers
