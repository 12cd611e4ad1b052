-- ===== src/Usb/Records/Tests.antt =====
-- The empty lists, and the report of an interface.
use kobox.Prelude.{[], true, ◌≡◌}
use kobox.Usb.State.{Usb, Device, Interface, Endpoint}
use kobox.Usb.Records.{
  device_snapshot, interface_snapshot, endpoint_snapshot, device_observe, interface_observe,
  endpoint_observe,
}
use kobox.Usb.Records.Snapshot.{Observes, KeepsRest, with_short_path, observe-Observes}

abbrev no_records : Usb
no_records = record {
  hcds = [];
  urbs = [];
  devices = [];
  interfaces = [];
  endpoints = [];
  drivers = [];
  notes = [];
}

observe-Observes_example :
    ((d : Device)
      → Observes true d.udev
          (with_short_path d)
          (λ j. device_snapshot j no_records)
          (device_observe true d no_records).0
          (λ j. device_snapshot j (device_observe true d no_records).1)
        × KeepsRest no_records (device_observe true d no_records).1
        × ((device_observe true d no_records).1.interfaces ≡ no_records.interfaces)
        × ((device_observe true d no_records).1.endpoints ≡ no_records.endpoints))
    × ((i : Interface)
        → Observes true i.interface i
            (λ j. interface_snapshot j no_records)
            (interface_observe true i no_records).0
            (λ j. interface_snapshot j (interface_observe true i no_records).1)
          × KeepsRest no_records (interface_observe true i no_records).1
          × ((interface_observe true i no_records).1.devices ≡ no_records.devices)
          × ((interface_observe true i no_records).1.endpoints ≡ no_records.endpoints))
    × ((e : Endpoint)
        → Observes true e.endpoint e
            (λ j. endpoint_snapshot j no_records)
            (endpoint_observe true e no_records).0
            (λ j. endpoint_snapshot j (endpoint_observe true e no_records).1)
          × KeepsRest no_records (endpoint_observe true e no_records).1
          × ((endpoint_observe true e no_records).1.devices ≡ no_records.devices)
          × ((endpoint_observe true e no_records).1.interfaces ≡ no_records.interfaces))
observe-Observes_example = observe-Observes true no_records
