-- ===== src/Block/Disk/Laws.antt =====
-- What the disk operations of src/linux_subsystem/block/block.c make of a disk's state.
use mathlib.Core.Option
use kobox.Prelude.{
  ==_refl, Bool, Bool-cases, ap, arith, false, inl, inr, pos, refl, some, true, ℕ, ◌==◌, ◌∙◌, ◌≡◌,
  ◌≢◌,
}
use kobox.Keyed
use kobox.Block.State.{Block, DiskState, disk_state_for, with_disk, fresh_disk}
use kobox.Block.State.Laws.{disk_state_for-with_disk}
use kobox.Block.Disk.{
  disk_state_create, disk_alloc, disk_attach, disk_register, disk_set_capacity, disk_set_io,
}

pub disk_state_for-disk_alloc :
    (disk : ℕ) (got_node : Bool) (b : Block)
    → (disk_alloc disk got_node b).0 ≢ 0
    → ((disk_alloc disk got_node b).0 ≡ disk)
      × (disk_state_for (disk_alloc disk got_node b).1 disk
          ≡ some (fresh_disk disk b.next_disk_number))
unfolding disk_alloc disk_state_create disk_state_for Keyed.find
disk_state_for-disk_alloc disk true b h = elim (Bool-cases (disk == 0)) [
  | inl e ↦ absurd (h (rw (disk_alloc, e) refl))
  | inr e ↦ rw (disk_alloc, e, ==_refl disk) (refl, refl)
]
disk_state_for-disk_alloc disk false b h = absurd (h (ground arith))

found-with_disk :
    (disk : ℕ) (f : DiskState → DiskState) (b : Block) {s : DiskState}
    → ((x : DiskState) → (f x).disk ≡ x.disk)
    → disk_state_for b disk ≡ some s
    → disk_state_for (with_disk disk f b) disk ≡ some (f s)
found-with_disk disk f b keeps h = disk_state_for-with_disk disk f b keeps ∙ ap (Option.map f) h

module _ (disk : ℕ) (b : Block) {s : DiskState} (h : disk_state_for b disk ≡ some s) where
  pub disk_state_for-disk_attach :
      (queue part0 : ℕ)
      → (queue == 0) ≡ false
      → (part0 == 0) ≡ false
      → ((disk_attach disk queue part0 b).0 ≡ pos 0)
        × (disk_state_for (disk_attach disk queue part0 b).1 disk
            ≡ some (record s { queue = queue; part0 = part0 }))
  unfolding disk_attach
  disk_state_for-disk_attach queue part0 q p =
      rw (disk_attach, h, q, p)
        (
          refl,
          found-with_disk disk (λ x. record x { queue = queue; part0 = part0 }) b (λ x. refl) h,
        )

  pub disk_state_for-disk_register :
      (parent groups : ℕ)
      → ((disk_register parent disk groups b).0 ≡ pos 0)
        × (disk_state_for (disk_register parent disk groups b).1 disk
            ≡ some (record s { parent = parent; groups = groups; registered = 1 }))
  unfolding disk_register
  disk_state_for-disk_register parent groups =
      rw (disk_register, h)
        (
          refl,
          found-with_disk disk (λ x. record x { parent = parent; groups = groups; registered = 1 })
              b (λ x. refl) h,
        )

  pub disk_state_for-disk_set_capacity :
      (sectors : ℕ)
      → disk_state_for (disk_set_capacity disk sectors b) disk
        ≡ some (record s { capacity_sectors = sectors })
  unfolding disk_set_capacity
  disk_state_for-disk_set_capacity sectors =
      found-with_disk disk (λ x. record x { capacity_sectors = sectors }) b (λ x. refl) h

  pub disk_state_for-disk_set_io :
      (ctx read_fn write_fn : ℕ)
      → disk_state_for (disk_set_io disk ctx read_fn write_fn b) disk
        ≡ some (record s { io_ctx = ctx; read_fn = read_fn; write_fn = write_fn })
  unfolding disk_set_io
  disk_state_for-disk_set_io ctx read_fn write_fn =
      found-with_disk disk (λ x. record x { io_ctx = ctx; read_fn = read_fn; write_fn = write_fn })
        b (λ x. refl) h

-- A disk operation leaves the queues as they are.
module _ (disk : ℕ) (b : Block) where
  pub queues-disk_attach : (queue part0 : ℕ) → (disk_attach disk queue part0 b).1.queues ≡ b.queues
  unfolding disk_attach with_disk
  queues-disk_attach queue part0 = ground arith

  pub queues-disk_register :
      (parent groups : ℕ) → (disk_register parent disk groups b).1.queues ≡ b.queues
  unfolding disk_register with_disk
  queues-disk_register parent groups = ground arith

  pub queues-disk_set_capacity :
      (sectors : ℕ) → (disk_set_capacity disk sectors b).queues ≡ b.queues
  unfolding disk_set_capacity with_disk
  queues-disk_set_capacity sectors = ground arith

  pub queues-disk_set_io :
      (ctx read_fn write_fn : ℕ) → (disk_set_io disk ctx read_fn write_fn b).queues ≡ b.queues
  unfolding disk_set_io with_disk
  queues-disk_set_io ctx read_fn write_fn = ground arith
