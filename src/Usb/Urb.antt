-- ===== src/Usb/Urb.antt =====
-- The URB records of src/linux_subsystem/usb/usb.c.
use kobox.Prelude.{
  Bool, List, Option, false, if◌then◌else◌, inc32, is_zero, length, neg, none, not, pos, some, true,
  ℕ, ℤ, ◌==◌, ◌||◌, ◌∷◌,
}
use kobox.Keyed
use kobox.Usb.State.{Usb, Urb, UrbDmaUpdate, pointer_is_error_or_low, for_each}

abbrev pub urb_key : Urb → ℕ
urb_key r = r.urb

abbrev zero_urb : Urb
zero_urb = record {
  hcd = 0;
  urb = 0;
  transfer_buffer = 0;
  setup_packet = 0;
  transfer_dma = 0;
  setup_dma = 0;
  transfer_buffer_length = 0;
  actual_length = 0;
  transfer_flags = 0;
  dma_map_flags = 0;
  status = pos 0;
  linked = false;
  mapped = false;
  link_count = 0;
  unlink_count = 0;
  map_count = 0;
  unmap_count = 0;
  submit_count = 0;
  kill_count = 0;
  giveback_count = 0;
  last_unlink_status = pos 0;
  last_submit_status = pos 0;
  last_giveback_status = pos 0;
  last_mem_flags = 0;
  last_submit_mem_flags = 0;
}

pub urb_record_find : ℕ → List Urb → Option Urb
urb_record_find urb us = if pointer_is_error_or_low urb then none else Keyed.find urb_key urb us

-- `if (record->hcd == NULL) record->hcd = hcd;`
abbrev pub claim : ℕ → Urb → Urb
claim hcd r = if r.hcd == 0 then record r { hcd = hcd } else r

-- Whether there is a record now. A record that was there and had no controller gets this one.
pub urb_record_for : Bool → ℕ → ℕ → List Urb → Bool × List Urb
unfolding urb_record_find
urb_record_for got hcd urb us =
    if pointer_is_error_or_low urb then (false, us) else elim (urb_record_find urb us) [
      | some _ ↦ (true, Keyed.modify urb_key urb (claim hcd) us)
      | none ↦ if got then (true, record zero_urb { hcd = hcd; urb = urb } ∷ us) else (false, us)
    ]

-- `record = urb_record_for(hcd, urb); if (record == NULL) return;` and a change of the record.
pub with_urb : Bool → ℕ → ℕ → (Urb → Urb) → Usb → Usb
unfolding urb_record_for
with_urb got hcd urb f u =
    let made = urb_record_for got hcd urb u.urbs in
    if made.0 then record u { urbs = Keyed.modify urb_key urb f made.1 } else u

-- The same where the function returns -EINVAL for a NULL controller, too.
pub with_urb_of : Bool → ℕ → ℕ → (Urb → Urb) → Usb → ℤ × Usb
unfolding urb_record_for
with_urb_of got hcd urb f u =
    let made = urb_record_for got hcd urb u.urbs in
    if not made.0 || hcd == 0
    then (neg 22, record u { urbs = made.1 })
    else (pos 0, record u { urbs = Keyed.modify urb_key urb f made.1 })

pub urb_link : Bool → ℕ → ℕ → Usb → ℤ × Usb
unfolding with_urb_of
urb_link got hcd urb =
    with_urb_of got hcd urb
      λ r. record r { hcd = hcd; linked = true; link_count = inc32 r.link_count }

pub urb_unlink : Bool → ℕ → ℕ → ℤ → Usb → Usb
unfolding with_urb
urb_unlink got hcd urb status = with_urb got hcd urb λ r. record (claim hcd r) {
  linked = false;
  last_unlink_status = status;
  unlink_count = inc32 r.unlink_count;
}

pub urb_check_unlink : Bool → ℕ → ℕ → ℤ → Usb → ℤ × Usb
unfolding with_urb_of
urb_check_unlink got hcd urb status =
    with_urb_of got hcd urb λ r. record r { last_unlink_status = status }

-- The fields that come with an update that is not NULL.
abbrev apply_update : Option UrbDmaUpdate → Urb → Urb
apply_update none r = r
apply_update (some d) r = record r {
  transfer_buffer = d.transfer_buffer;
  setup_packet = d.setup_packet;
  transfer_dma = d.transfer_dma;
  setup_dma = d.setup_dma;
  transfer_buffer_length = d.transfer_buffer_length;
  actual_length = d.actual_length;
  transfer_flags = d.transfer_flags;
  dma_map_flags = d.dma_map_flags;
  status = pos 0;
  last_mem_flags = d.mem_flags;
}

pub urb_map_dma : Bool → ℕ → ℕ → Option UrbDmaUpdate → Usb → ℤ × Usb
unfolding with_urb_of
urb_map_dma got hcd urb update = with_urb_of got hcd urb λ r.
    record (apply_update update (record r { hcd = hcd; mapped = true })) {
      map_count = inc32 r.map_count;
    }

pub urb_unmap_dma : Bool → ℕ → ℕ → Usb → Usb
unfolding with_urb
urb_unmap_dma got hcd urb = with_urb got hcd urb λ r. record (claim hcd r) {
  mapped = false;
  dma_map_flags = 0;
  unmap_count = inc32 r.unmap_count;
}

pub urb_submit : Bool → ℕ → ℕ → ℕ → ℤ → Usb → Usb
unfolding with_urb
urb_submit got hcd urb mem_flags status = with_urb got hcd urb λ r. record (claim hcd r) {
  linked = is_zero status;
  last_submit_status = status;
  last_submit_mem_flags = mem_flags;
  submit_count = inc32 r.submit_count;
}

pub urb_kill : Bool → ℕ → ℕ → Usb → Usb
unfolding with_urb
urb_kill got hcd urb =
    with_urb got hcd urb
      λ r. record (claim hcd r) { linked = false; kill_count = inc32 r.kill_count }

pub urb_giveback : Bool → ℕ → ℕ → ℤ → Usb → Usb
unfolding with_urb
urb_giveback got hcd urb status = with_urb got hcd urb λ r. record (claim hcd r) {
  linked = false;
  last_giveback_status = status;
  status = status;
  giveback_count = inc32 r.giveback_count;
}

-- The snapshot has the record's fields.
pub urb_snapshot : ℕ → Usb → Option Urb
unfolding urb_record_find
urb_snapshot urb u = urb_record_find urb u.urbs

pub urb_count : Usb → ℕ
urb_count u = length u.urbs

pub for_each_urb : {W : Type 0} → (Urb → W → ℤ × W) → Usb → W → ℕ × W
unfolding for_each
for_each_urb f u = for_each f 0 u.urbs
