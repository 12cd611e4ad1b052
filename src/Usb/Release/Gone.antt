-- ===== src/Usb/Release/Gone.antt =====
-- What a released host controller of src/linux_subsystem/usb/usb.c takes with it.
use kobox.Prelude.{
  Bool, Bool-cases, List, [], ap, false, if◌then◌else◌, inl, inr, refl, some, ℕ, ◌&&◌, ◌==◌, ◌||◌,
  ◌∙◌, ◌∷◌, ◌≡◌,
}
use kobox.Keyed
use kobox.Usb.State.{
  Usb, Device, Interface, Endpoint, Hcd, Note, remove_interface, pointer_is_error_or_low, reject,
}
use kobox.Usb.Release.Filters.{
  any, reject-cong, reject-reject, reject-false, any-false, any-reject, or_four,
}
use kobox.Usb.Release.{
  endpoint_records_release_for_interface, endpoint_records_release_for_udev, release_interface,
  release_interfaces, interface_records_release_for_udev, release_udev, release_devices,
  device_records_release_for_hcd, urb_records_release_for_hcd, self_key, hcd_release,
}

-- The address `a` is none of NULL's, and it is `b`.
abbrev pub names : ℕ → ℕ → Bool
names a b = if a == 0 then false else b == a

-- A device of the controller has the udev.
abbrev pub has_udev : ℕ → List Device → ℕ → Bool
has_udev hcd ds udev = any (λ d. d.hcd == hcd && names d.udev udev) ds

-- An interface, of a udev in `p`, is the given one.
abbrev pub has_interface : (ℕ → Bool) → List Interface → ℕ → Bool
has_interface p is interface = any (λ i. p i.udev && names i.interface interface) is

release_for_interface-Gone :
    (interface : ℕ) (u : Usb)
    → endpoint_records_release_for_interface interface u
      ≡ record u { endpoints = reject (λ e. names interface e.interface) u.endpoints }
unfolding endpoint_records_release_for_interface
release_for_interface-Gone interface u = elim (Bool-cases (interface == 0)) [
  | inl e ↦ rw (e, reject-false {p = λ _. false} (λ r. refl) u.endpoints) refl
  | inr e ↦ rw e refl
]

release_for_udev-Gone :
    (udev : ℕ) (u : Usb)
    → endpoint_records_release_for_udev udev u
      ≡ record u { endpoints = reject (λ e. names udev e.udev) u.endpoints }
unfolding endpoint_records_release_for_udev
release_for_udev-Gone udev u = elim (Bool-cases (udev == 0)) [
  | inl e ↦ rw (e, reject-false {p = λ _. false} (λ r. refl) u.endpoints) refl
  | inr e ↦ rw e refl
]

-- The loop over the interfaces of a udev, with what it has told the storage module.
release_interfaces-Gone :
    (udev : ℕ) (is : List Interface) (u : Usb)
    → (ns : List Note) × (release_interfaces udev is u ≡ (
      reject (λ i. i.udev == udev) is,
      record u {
        endpoints =
            reject (λ e. any (λ i. i.udev == udev && names i.interface e.interface) is) u.endpoints;
        notes = ns;
      },
    ))
unfolding release_interfaces release_interface any reject
release_interfaces-Gone udev [] u =
    (u.notes, rw (reject-false {p = λ _. false} (λ r. refl) u.endpoints) refl)
release_interfaces-Gone udev (i ∷ is) u = elim (Bool-cases (i.udev == udev)) [
  | inl e ↦
      let r = release_interfaces-Gone udev is (release_interface i.interface u) in
      (
        r.0,
        rw
            (
              e,
              r.1,
              release_for_interface-Gone i.interface
                  (record u { notes = remove_interface i.interface ∷ u.notes }),
              reject-reject,
            )
            refl,
      )
  | inr e ↦ let r = release_interfaces-Gone udev is u in (r.0, rw (e, r.1) refl)
]

interface_records-Gone :
    (udev : ℕ) (u : Usb)
    → (ns : List Note) × (interface_records_release_for_udev udev u ≡ record u {
      interfaces = reject (λ i. names udev i.udev) u.interfaces;
      endpoints = reject (λ e. has_interface (names udev) u.interfaces e.interface) u.endpoints;
      notes = ns;
    })
unfolding interface_records_release_for_udev
interface_records-Gone udev u = elim (Bool-cases (udev == 0)) [
  | inl n ↦ (
    u.notes,
    rw
        (
          n,
          reject-false {p = λ _. false} (λ r. refl) u.interfaces,
          reject-false {p = λ r. any {A = Interface} (λ _. false) u.interfaces}
              (λ r. any-false (λ _. refl) u.interfaces) u.endpoints,
        )
        refl,
  )
  | inr n ↦ let r = release_interfaces-Gone udev u.interfaces u in (r.0, rw (n, r.1) refl)
]

release_udev-Gone :
    (udev : ℕ) (u : Usb)
    → (ns : List Note) × (release_udev udev u ≡ record u {
      interfaces = reject (λ i. names udev i.udev) u.interfaces;
      endpoints =
          reject
            (λ e. has_interface (names udev) u.interfaces e.interface || names udev e.udev)
            u.endpoints;
      notes = ns;
    })
unfolding release_udev
release_udev-Gone udev u =
    let r = interface_records-Gone udev u in
    (r.0, rw (r.1, release_for_udev-Gone udev, reject-reject) refl)

endpoint_gone :
    (hcd : ℕ) (d : Device) (ds : List Device) (u : Usb)
    → (e : Endpoint)
    → ((has_interface (names d.udev) u.interfaces e.interface || names d.udev e.udev)
        || (has_interface
              (has_udev hcd ds)
              (reject (λ i. names d.udev i.udev) u.interfaces)
              e.interface
            || has_udev hcd ds e.udev))
      ≡ (has_interface (λ udev. names d.udev udev || has_udev hcd ds udev) u.interfaces e.interface
          || (names d.udev e.udev || has_udev hcd ds e.udev))
endpoint_gone hcd d ds u e =
    rw
      (
        or_four (has_interface (names d.udev) u.interfaces e.interface) (names d.udev e.udev)
            (has_interface (has_udev hcd ds) (reject (λ i. names d.udev i.udev) u.interfaces)
              e.interface)
            (has_udev hcd ds e.udev),
        any-reject (λ i. names d.udev i.udev) (λ i. has_udev hcd ds i.udev)
            (λ i. names i.interface e.interface) u.interfaces,
      )
      refl

-- The loop over the devices of a controller.
release_devices-Gone :
    (hcd : ℕ) (ds : List Device) (u : Usb)
    → (ns : List Note) × (release_devices hcd ds u ≡ (
      reject (λ d. d.hcd == hcd) ds,
      record u {
        interfaces = reject (λ i. has_udev hcd ds i.udev) u.interfaces;
        endpoints =
            reject
              (λ e.
                has_interface (has_udev hcd ds) u.interfaces e.interface || has_udev hcd ds e.udev)
              u.endpoints;
        notes = ns;
      },
    ))
unfolding release_devices any reject
release_devices-Gone hcd [] u = (
  u.notes,
  rw
      (
        reject-false {p = λ _. false} (λ r. refl) u.interfaces,
        reject-false {p = λ r. any {A = Interface} (λ _. false) u.interfaces || false}
            (λ r. rw (any-false {A = Interface} {p = λ _. false} (λ _. refl) u.interfaces) refl)
            u.endpoints,
      )
      refl,
)
release_devices-Gone hcd (d ∷ ds) u = elim (Bool-cases (d.hcd == hcd)) [
  | inl e ↦
      let a = release_udev-Gone d.udev u in
      let r = release_devices-Gone hcd ds (record u {
        interfaces = reject (λ i. names d.udev i.udev) u.interfaces;
        endpoints =
            reject
              (λ e'. has_interface (names d.udev) u.interfaces e'.interface || names d.udev e'.udev)
              u.endpoints;
        notes = a.0;
      }) in
      (
        r.0,
        rw
            (
              e,
              a.1,
              r.1,
              reject-reject (λ i. has_udev hcd ds i.udev) (λ i. names d.udev i.udev) u.interfaces,
            )
            (ap
              (λ es. (
                reject (λ d'. d'.hcd == hcd) ds,
                record u {
                  interfaces =
                      reject (λ i. names d.udev i.udev || has_udev hcd ds i.udev) u.interfaces;
                  endpoints = es;
                  notes = r.0;
                },
              ))
              (reject-reject
                  (λ e'.
                    has_interface (has_udev hcd ds) (reject (λ i. names d.udev i.udev) u.interfaces)
                      e'.interface
                    || has_udev hcd ds e'.udev)
                  (λ e'.
                    has_interface (names d.udev) u.interfaces e'.interface || names d.udev e'.udev)
                  u.endpoints
                ∙ reject-cong (endpoint_gone hcd d ds u) u.endpoints)),
      )
  | inr e ↦ let r = release_devices-Gone hcd ds u in (r.0, rw (e, r.1) refl)
]

-- The address is one that the release of a controller accepts, so below the error pointers, and
-- not in the first page.
abbrev pub IsControllerPointer : ℕ → Type 0
IsControllerPointer hcd = pointer_is_error_or_low hcd ≡ false

-- kb_usb_hcd_release for a record in the list, with a controller pointer, leaves exactly: the URBs
-- and devices of other controllers; the interfaces whose udev is not that of a device of the
-- controller; the endpoints of neither such a udev nor such an interface; the other controller
-- records; and every driver. (0 is no device's udev and no interface here.)
pub hcd_release-Gone :
    (self : ℕ) (u : Usb) {r : Hcd}
    → Keyed.find self_key self u.hcds ≡ some r
    → IsControllerPointer r.hcd
    → (ns : List Note) × (hcd_release self u ≡ record u {
      hcds = Keyed.remove self_key self u.hcds;
      urbs = reject (λ b. b.hcd == r.hcd) u.urbs;
      devices = reject (λ d. d.hcd == r.hcd) u.devices;
      interfaces = reject (λ i. has_udev r.hcd u.devices i.udev) u.interfaces;
      endpoints =
          reject
            (λ e.
              has_interface (has_udev r.hcd u.devices) u.interfaces e.interface
              || has_udev r.hcd u.devices e.udev)
            u.endpoints;
      notes = ns;
    })
unfolding hcd_release device_records_release_for_hcd urb_records_release_for_hcd
hcd_release-Gone self u {r = r} found valid =
    let gone = release_devices-Gone r.hcd u.devices u in
    (gone.0, rw (hcd_release, found, valid, gone.1) refl)
