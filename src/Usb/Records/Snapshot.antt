-- ===== src/Usb/Records/Snapshot.antt =====
-- What the snapshots of src/linux_subsystem/usb/usb.c give after the USB core's reports.
use mathlib.Core.Option
use kobox.Prelude.{
  Bool, Bool-cases, List, Option, Option-cases, [], arith, false, if◌then◌else◌, inl, inr, neg,
  none, pos, refl, some, take, true, ℕ, ℤ, ◌-◌, ◌==◌, ◌∷◌, ◌≡◌, ◌≢◌, ◌⊎◌,
}
use kobox.Keyed
use kobox.Usb.State.{Usb, Device, Interface, Endpoint, find_or_add}
use kobox.Usb.Records.{
  udev_key, interface_key, endpoint_key, find_record, device_record_for, interface_record_for,
  endpoint_record_for, device_observe, interface_observe, endpoint_observe, devpath_max,
  device_snapshot, interface_snapshot, endpoint_snapshot, zero_device, zero_interface,
  zero_endpoint,
}

-- What a report of `stored` under the key `k` answers, and what the snapshots are after it, by those
-- before it and by whether the allocation of a record succeeds.
abbrev pub Observes : {A : Type 0} → Bool → ℕ → A → (ℕ → Option A) → ℤ → (ℕ → Option A) → Type 0
Observes got k stored before answer after =
    ((k ≡ 0) × (answer ≡ neg 22) × ((j : ℕ) → after j ≡ before j))
    ⊎ ((k ≢ 0)
        × (before k ≡ none)
        × (got ≡ false)
        × (answer ≡ neg 12)
        × ((j : ℕ) → after j ≡ before j))
    ⊎ ((k ≢ 0)
        × (before k ≡ none → got ≡ true)
        × (answer ≡ pos 0)
        × ((j : ℕ) → after j ≡ (if j == k then some stored else before j)))

-- The records of the other kinds, the host controllers and the URBs.
abbrev pub KeepsRest : Usb → Usb → Type 0
KeepsRest u u' = (u'.hcds ≡ u.hcds) × (u'.urbs ≡ u.urbs) × (u'.drivers ≡ u.drivers)

device_observe-KeepsRest :
    (got : Bool) (d : Device) (u : Usb)
    → KeepsRest u (device_observe got d u).1
      × ((device_observe got d u).1.interfaces ≡ u.interfaces)
      × ((device_observe got d u).1.endpoints ≡ u.endpoints)
unfolding device_observe
device_observe-KeepsRest got d u = ground arith

interface_observe-KeepsRest :
    (got : Bool) (i : Interface) (u : Usb)
    → KeepsRest u (interface_observe got i u).1
      × ((interface_observe got i u).1.devices ≡ u.devices)
      × ((interface_observe got i u).1.endpoints ≡ u.endpoints)
unfolding interface_observe
interface_observe-KeepsRest got i u = ground arith

endpoint_observe-KeepsRest :
    (got : Bool) (e : Endpoint) (u : Usb)
    → KeepsRest u (endpoint_observe got e u).1
      × ((endpoint_observe got e u).1.devices ≡ u.devices)
      × ((endpoint_observe got e u).1.interfaces ≡ u.interfaces)
unfolding endpoint_observe
endpoint_observe-KeepsRest got e u = ground arith

module _ {A : Type 0} (key : A → ℕ) where
  find-put :
      (k j : ℕ) (a : A) (xs : List A)
      → key a ≡ k
      → Keyed.find key j (Keyed.modify key k (λ _. a) xs)
        ≡ (if j == k then Option.map (λ _. a) (Keyed.find key k xs) else Keyed.find key j xs)
  unfolding Keyed.find Keyed.modify
  find-put k j a [] h = ground arith
  find-put k j a (x ∷ xs) h = ground (arith, find-put k j a xs h)

  find_record-put :
      (k j : ℕ) (a : A) (xs : List A) {old : A}
      → key a ≡ k
      → k ≢ 0
      → Keyed.find key k xs ≡ some old
      → find_record key j (Keyed.modify key k (λ _. a) xs)
        ≡ (if j == k then some a else find_record key j xs)
  unfolding find_record
  find_record-put k j a xs h n found = elim (Bool-cases (j == 0)) [
    | inl e ↦ rw e (ground arith)
    | inr e ↦ rw (e, find-put k j a xs h, found) refl
  ]

  find_record-add :
      (k j : ℕ) (a fresh : A) (xs : List A)
      → key a ≡ k
      → key fresh ≡ k
      → k ≢ 0
      → find_record key j (Keyed.modify key k (λ _. a) (fresh ∷ xs))
        ≡ (if j == k then some a else find_record key j xs)
  unfolding find_record Keyed.find Keyed.modify
  find_record-add k j a fresh xs h g n = ground arith

-- The device as its record keeps it: 31 bytes of the path.
abbrev pub with_short_path : Device → Device
with_short_path d = record d { devpath = take (devpath_max - 1) d.devpath }

device_observe-Observes :
    (got : Bool) (d : Device) (u : Usb)
    → Observes got d.udev
        (with_short_path d)
        (λ j. device_snapshot j u)
        (device_observe got d u).0
        (λ j. device_snapshot j (device_observe got d u).1)
unfolding device_observe device_record_for device_snapshot find_record find_or_add
device_observe-Observes got d u = elim (Bool-cases (d.udev == 0)) [
  | inl e ↦ rw (device_observe, e) (inl (ground arith, refl, λ j. refl))
  | inr e ↦ elim (Option-cases (Keyed.find udev_key d.udev u.devices)) [
    | inr (r, f) ↦
        rw (device_observe, e, f)
          (inr (
            inr (
              ground arith,
              (λ h. absurd (cc)),
              refl,
              λ j.
                  find_record-put udev_key d.udev j (with_short_path d) u.devices {old = r} refl
                    (ground arith) f,
            )))
    | inl f ↦ elim (Bool-cases got) [
      | inl g ↦
          rw (device_observe, e, f, g)
            (inr (
              inr (
                ground arith,
                (λ h. refl),
                refl,
                λ j.
                    find_record-add udev_key d.udev j (with_short_path d)
                      (record zero_device { udev = d.udev }) u.devices refl refl (ground arith),
              )))
      | inr g ↦ rw (device_observe, e, f, g) (inr (inl (ground arith, refl, refl, refl, λ j. refl)))
    ]
  ]
]

interface_observe-Observes :
    (got : Bool) (d : Interface) (u : Usb)
    → Observes got d.interface d
        (λ j. interface_snapshot j u)
        (interface_observe got d u).0
        (λ j. interface_snapshot j (interface_observe got d u).1)
unfolding interface_observe interface_record_for interface_snapshot find_record find_or_add
interface_observe-Observes got d u = elim (Bool-cases (d.interface == 0)) [
  | inl e ↦ rw (interface_observe, e) (inl (ground arith, refl, λ j. refl))
  | inr e ↦ elim (Option-cases (Keyed.find interface_key d.interface u.interfaces)) [
    | inr (r, f) ↦
        rw (interface_observe, e, f)
          (inr (
            inr (
              ground arith,
              (λ h. absurd (cc)),
              refl,
              λ j.
                  find_record-put interface_key d.interface j d u.interfaces {old = r} refl
                    (ground arith) f,
            )))
    | inl f ↦ elim (Bool-cases got) [
      | inl g ↦
          rw (interface_observe, e, f, g)
            (inr (
              inr (
                ground arith,
                (λ h. refl),
                refl,
                λ j.
                    find_record-add interface_key d.interface j d
                      (record zero_interface { interface = d.interface }) u.interfaces refl refl
                      (ground arith),
              )))
      | inr g ↦
          rw (interface_observe, e, f, g) (inr (inl (ground arith, refl, refl, refl, λ j. refl)))
    ]
  ]
]

endpoint_observe-Observes :
    (got : Bool) (d : Endpoint) (u : Usb)
    → Observes got d.endpoint d
        (λ j. endpoint_snapshot j u)
        (endpoint_observe got d u).0
        (λ j. endpoint_snapshot j (endpoint_observe got d u).1)
unfolding endpoint_observe endpoint_record_for endpoint_snapshot find_record find_or_add
endpoint_observe-Observes got d u = elim (Bool-cases (d.endpoint == 0)) [
  | inl e ↦ rw (endpoint_observe, e) (inl (ground arith, refl, λ j. refl))
  | inr e ↦ elim (Option-cases (Keyed.find endpoint_key d.endpoint u.endpoints)) [
    | inr (r, f) ↦
        rw (endpoint_observe, e, f)
          (inr (
            inr (
              ground arith,
              (λ h. absurd (cc)),
              refl,
              λ j.
                  find_record-put endpoint_key d.endpoint j d u.endpoints {old = r} refl
                    (ground arith) f,
            )))
    | inl f ↦ elim (Bool-cases got) [
      | inl g ↦
          rw (endpoint_observe, e, f, g)
            (inr (
              inr (
                ground arith,
                (λ h. refl),
                refl,
                λ j.
                    find_record-add endpoint_key d.endpoint j d
                      (record zero_endpoint { endpoint = d.endpoint }) u.endpoints refl refl
                      (ground arith),
              )))
      | inr g ↦
          rw (endpoint_observe, e, f, g) (inr (inl (ground arith, refl, refl, refl, λ j. refl)))
    ]
  ]
]

-- A report of a device, an interface or an endpoint answers -EINVAL for a NULL address, and -ENOMEM
-- where there is no record and none can be allocated, and then every snapshot of its kind is as
-- before. Otherwise it answers 0, and a snapshot of its kind gives what was reported, of the device's
-- path at most 31 bytes, at that address, and what it gave before at every other. In each case the
-- records of the other kinds, the drivers, the host controllers and the URBs stay as they are.
pub observe-Observes :
    (got : Bool) (u : Usb)
    → ((d : Device)
        → Observes got d.udev
            (with_short_path d)
            (λ j. device_snapshot j u)
            (device_observe got d u).0
            (λ j. device_snapshot j (device_observe got d u).1)
          × KeepsRest u (device_observe got d u).1
          × ((device_observe got d u).1.interfaces ≡ u.interfaces)
          × ((device_observe got d u).1.endpoints ≡ u.endpoints))
      × ((i : Interface)
          → Observes got i.interface i
              (λ j. interface_snapshot j u)
              (interface_observe got i u).0
              (λ j. interface_snapshot j (interface_observe got i u).1)
            × KeepsRest u (interface_observe got i u).1
            × ((interface_observe got i u).1.devices ≡ u.devices)
            × ((interface_observe got i u).1.endpoints ≡ u.endpoints))
      × ((e : Endpoint)
          → Observes got e.endpoint e
              (λ j. endpoint_snapshot j u)
              (endpoint_observe got e u).0
              (λ j. endpoint_snapshot j (endpoint_observe got e u).1)
            × KeepsRest u (endpoint_observe got e u).1
            × ((endpoint_observe got e u).1.devices ≡ u.devices)
            × ((endpoint_observe got e u).1.interfaces ≡ u.interfaces))
observe-Observes got u = (
  λ d.
      let (rest, first, second) = device_observe-KeepsRest got d u in
      (device_observe-Observes got d u, rest, first, second),
  λ i.
      let (rest, first, second) = interface_observe-KeepsRest got i u in
      (interface_observe-Observes got i u, rest, first, second),
  λ e.
      let (rest, first, second) = endpoint_observe-KeepsRest got e u in
      (endpoint_observe-Observes got e u, rest, first, second),
)
