-- ===== src/Usb/Hcd.antt =====
-- The host controllers of src/linux_subsystem/usb/usb.c and the events of their root hubs.
use Prim.Native.Nat.{bit_and, bit_or, bit_xor}
use kobox.Prelude.{
  List, Option, [], false, if◌then◌else◌, inc32, length, neg, none, pos, some, take, true, ℕ, ℤ,
  ◌&&◌, ◌*◌, ◌+◌, ◌/=◌, ◌==◌, ◌^◌, ◌||◌, ◌∷◌,
}
use kobox.Keyed
use kobox.Usb.State.{Usb, Hcd, pointer_is_error_or_low, for_each}

abbrev pub hcd_key : Hcd → ℕ
hcd_key r = r.hcd

abbrev zero_hcd : Hcd
zero_hcd = record {
  self = 0;
  primary = 0;
  owner = 0;
  driver = 0;
  hcd = 0;
  primary_hcd = 0;
  regs = 0;
  owns_storage = false;
  irq = 0;
  irq_registered = 0;
  added = 0;
  irq_count = 0;
  died_count = 0;
  lost_power_count = 0;
  root_hub_poll_count = 0;
  root_hub_resume_count = 0;
  port_resume_start_count = 0;
  port_resume_end_count = 0;
  wakeup_notification_count = 0;
  remote_wakeup_quirk_count = 0;
  hub_event_bits = 0;
}

pub hcd_for_hcd : ℕ → Usb → Option Hcd
hcd_for_hcd hcd u = if pointer_is_error_or_low hcd then none else Keyed.find hcd_key hcd u.hcds

-- The addresses of the record and of the controller's storage, `none` where an allocation fails.
pub hcd_alloc : Option ℕ → Option ℕ → Usb → Option Hcd × Usb
hcd_alloc none storage u = (none, u)
hcd_alloc (some self) none u = (none, u)
hcd_alloc (some self) (some storage) u =
    let made = record zero_hcd { self = self; hcd = storage; owns_storage = true } in
    (some made, record u { hcds = made ∷ u.hcds })

pub hcd_track : Option ℕ → ℕ → Usb → Option Hcd × Usb
unfolding hcd_for_hcd
hcd_track memory hcd u =
    if pointer_is_error_or_low hcd then (none, u) else elim (hcd_for_hcd hcd u) [
      | some r ↦ (some r, u)
      | none ↦ elim memory [
        | none ↦ (none, u)
        | some self ↦
            let made = record zero_hcd { self = self; hcd = hcd } in
            (some made, record u { hcds = made ∷ u.hcds })
      ]
    ]

find_primary : ℕ → List Hcd → Option Hcd
find_primary owner [] = none
find_primary owner (r ∷ rs) =
    if r.owner == owner && r.primary /= 0 then some r else find_primary owner rs

pub primary_hcd_for_owner : ℕ → Usb → Option Hcd
unfolding find_primary
primary_hcd_for_owner owner u = if owner == 0 then none else find_primary owner u.hcds

-- `record = hcd_for_hcd(hcd); if (record != NULL)` and a change of the record.
pub with_hcd : ℕ → (Hcd → Hcd) → Usb → Usb
with_hcd hcd f u =
    if pointer_is_error_or_low hcd then u else record u { hcds = Keyed.modify hcd_key hcd f u.hcds }

hcd_note_irq : ℕ → Usb → Usb
hcd_note_irq hcd = with_hcd hcd λ r. record r { irq_count = inc32 r.irq_count }

hcd_note_died : ℕ → Usb → Usb
hcd_note_died hcd = with_hcd hcd λ r. record r { died_count = inc32 r.died_count }

hcd_note_lost_power : ℕ → Usb → Usb
hcd_note_lost_power hcd = with_hcd hcd λ r. record r { lost_power_count = inc32 r.lost_power_count }

hcd_note_root_hub_poll : ℕ → Usb → Usb
hcd_note_root_hub_poll hcd =
    with_hcd hcd λ r. record r { root_hub_poll_count = inc32 r.root_hub_poll_count }

hcd_note_root_hub_resume : ℕ → Usb → Usb
hcd_note_root_hub_resume hcd =
    with_hcd hcd λ r. record r { root_hub_resume_count = inc32 r.root_hub_resume_count }

hcd_note_port_resume_start : ℕ → Usb → Usb
hcd_note_port_resume_start hcd =
    with_hcd hcd λ r. record r { port_resume_start_count = inc32 r.port_resume_start_count }

hcd_note_port_resume_end : ℕ → Usb → Usb
hcd_note_port_resume_end hcd =
    with_hcd hcd λ r. record r { port_resume_end_count = inc32 r.port_resume_end_count }

hcd_note_wakeup_notification : ℕ → Usb → Usb
hcd_note_wakeup_notification hcd =
    with_hcd hcd λ r. record r { wakeup_notification_count = inc32 r.wakeup_notification_count }

hcd_note_remote_wakeup_quirk : ℕ → Usb → Usb
hcd_note_remote_wakeup_quirk hcd =
    with_hcd hcd λ r. record r { remote_wakeup_quirk_count = inc32 r.remote_wakeup_quirk_count }

abbrev as_flag : ℕ → ℕ
as_flag n = if n == 0 then 0 else 1

-- The snapshot has the record's fields, the flags as 0 or 1.
pub hcd_snapshot : ℕ → Usb → Option Hcd
unfolding hcd_for_hcd
hcd_snapshot hcd u = elim (hcd_for_hcd hcd u) [
  | none ↦ none
  | some r ↦ some (record r {
    primary = as_flag r.primary;
    irq_registered = as_flag r.irq_registered;
    added = as_flag r.added;
  })
]

pub for_each_hcd : {W : Type 0} → (Hcd → W → ℤ × W) → Usb → W → ℕ × W
unfolding for_each
for_each_hcd f u = for_each f 0 u.hcds

-- The place in the list of the record at an address; `none` is -1.
pub record_index : ℕ → List Hcd → Option ℕ
record_index self [] = none
record_index self (r ∷ rs) =
    let rest = record_index self rs in
    if r.self == self then some 0 else elim rest [ none ↦ none | some i ↦ some (i + 1) ]

-- The bytes are below 256, so those that the code joins by `|` are added.
pub status_bits : List ℕ → ℕ
status_bits [] = 0
status_bits (b ∷ bs) = b + status_bits bs * 2 ^ 8

pub hub_status_bits : List ℕ → ℕ
unfolding status_bits
hub_status_bits status = status_bits (take 8 status)

-- kb_usb_hub_event_update_t, which the caller passes; the fields that commit does not write are not in it.
pub record HubEvent : Type 0 where
  pub status : List ℕ
  pub bits : ℕ
  pub new_bits : ℕ
  pub injected_before : ℕ
  pub injected_after : ℕ
  pub slot : Option ℕ

-- `a & ~b`
abbrev pub and_not : ℕ → ℕ → ℕ
and_not a b = bit_xor a (bit_and a b)

abbrev set_bits : ℕ → Hcd → Hcd
set_bits bits r = record r { hub_event_bits = bits }

pub hub_event_prepare : Option ℕ → ℕ → Option (List ℕ) → Usb → ℤ × Option HubEvent × Usb
unfolding hcd_track hub_status_bits record_index
hub_event_prepare memory hcd none u = (neg 22, none, u)
hub_event_prepare memory hcd (some status) u =
    if hcd == 0 || length status == 0
    then (neg 22, none, u)
    else let tracked = hcd_track memory hcd u in
      elim tracked.0 [
        | none ↦ (neg 12, none, tracked.1)
        | some r ↦
            let bits = hub_status_bits status in
            let after = if bits == 0 then 0 else r.hub_event_bits in
            (
              pos 0,
              some (record {
                status = take 8 status;
                bits = bits;
                new_bits = and_not bits after;
                injected_before = r.hub_event_bits;
                injected_after = after;
                slot = record_index r.self tracked.1.hcds;
              }),
              record (tracked.1) {
                hcds = Keyed.modify hcd_key hcd (set_bits after) tracked.1.hcds;
              },
            )
      ]

pub hub_event_commit : Option ℕ → ℕ → ℕ → Option HubEvent → Usb → ℤ × Option HubEvent × Usb
unfolding hcd_track record_index
hub_event_commit memory hcd bits update u =
    if hcd == 0
    then (neg 22, update, u)
    else let tracked = hcd_track memory hcd u in
      elim tracked.0 [
        | none ↦ (neg 12, update, tracked.1)
        | some r ↦
            let after = bit_or r.hub_event_bits bits in
            (
              pos 0,
              elim update [
                | none ↦ none
                | some e ↦ some (record e {
                  injected_before = r.hub_event_bits;
                  injected_after = after;
                  slot = elim e.slot [
                    | none ↦ record_index r.self tracked.1.hcds
                    | some i ↦ some i
                  ];
                })
              ],
              record (tracked.1) {
                hcds = Keyed.modify hcd_key hcd (set_bits after) tracked.1.hcds;
              },
            )
      ]
