-- ===== src/Usb/Release/Tests.antt =====
-- A controller at 8192 with one device, an interface of it and their endpoints; and a device of
-- the controller at 12288.
use kobox.Prelude.{List, [], false, refl, ℕ, ◌∷◌, ◌≡◌}
use kobox.Keyed
use kobox.Usb.State.{Usb, Hcd, Device, Interface, Endpoint, Note, reject}
use kobox.Usb.Release.{hcd_release}
use kobox.Usb.Release.Filters.{any}
use kobox.Usb.Release.Gone.{hcd_release-Gone}

abbrev a_hcd : ℕ → ℕ → Hcd
a_hcd self hcd = record {
  self = self;
  primary = 0;
  owner = 0;
  driver = 0;
  hcd = hcd;
  primary_hcd = 0;
  regs = 0;
  owns_storage = false;
  irq = 0;
  irq_registered = 0;
  added = 0;
  irq_count = 0;
  died_count = 0;
  lost_power_count = 0;
  root_hub_poll_count = 0;
  root_hub_resume_count = 0;
  port_resume_start_count = 0;
  port_resume_end_count = 0;
  wakeup_notification_count = 0;
  remote_wakeup_quirk_count = 0;
  hub_event_bits = 0;
}

abbrev a_device : ℕ → ℕ → Device
a_device hcd udev = record {
  hcd = hcd;
  udev = udev;
  linux_device = 0;
  parent_linux_device = 0;
  bus = 0;
  active_config = 0;
  devnum = 0;
  portnum = 0;
  speed = 0;
  state = 0;
  vendor_id = 0;
  product_id = 0;
  bcd_device = 0;
  device_class = 0;
  device_subclass = 0;
  device_protocol = 0;
  max_packet_size0 = 0;
  configuration_value = 0;
  interface_count = 0;
  devpath = [];
}

abbrev an_interface : ℕ → ℕ → Interface
an_interface udev interface = record {
  udev = udev;
  interface = interface;
  linux_device = 0;
  parent_linux_device = 0;
  driver = 0;
  driver_data = 0;
  cur_altsetting = 0;
  interface_number = 0;
  alternate_setting = 0;
  endpoint_count = 0;
  interface_class = 0;
  interface_subclass = 0;
  interface_protocol = 0;
}

abbrev an_endpoint : ℕ → ℕ → ℕ → Endpoint
an_endpoint udev interface endpoint = record {
  udev = udev;
  interface = interface;
  endpoint = endpoint;
  address = 0;
  attributes = 0;
  interval = 0;
  type = 0;
  direction_in = 0;
  max_packet_size = 0;
}

abbrev two_hcds : Usb
two_hcds = record {
  hcds = a_hcd 1 8192 ∷ a_hcd 2 12288 ∷ [];
  urbs = [];
  devices = a_device 8192 20 ∷ a_device 12288 30 ∷ [];
  interfaces = an_interface 20 200 ∷ an_interface 30 300 ∷ [];
  endpoints = an_endpoint 20 0 1 ∷ an_endpoint 0 200 2 ∷ an_endpoint 30 300 3 ∷ [];
  drivers = [];
  notes = [];
}

hcd_release-Gone_example :
    (ns : List Note) × (hcd_release 1 two_hcds ≡ record two_hcds {
      hcds = a_hcd 2 12288 ∷ [];
      devices = a_device 12288 30 ∷ [];
      interfaces = an_interface 30 300 ∷ [];
      endpoints = an_endpoint 30 300 3 ∷ [];
      notes = ns;
    })
unfolding Keyed.find Keyed.remove reject any
hcd_release-Gone_example = hcd_release-Gone 1 two_hcds {r = a_hcd 1 8192} refl refl
