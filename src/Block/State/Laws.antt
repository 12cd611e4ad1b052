-- ===== src/Block/State/Laws.antt =====
-- Searches of src/linux_subsystem/block/block.c after writes through the pointers they return.
use mathlib.Core.Path.{fun_ext}
use mathlib.Core.Option
use kobox.Prelude.{Bool-cases, ap, arith, if◌then◌else◌, inl, inr, ℕ, ◌==◌, ◌∙◌, ◌≡◌}
use kobox.Keyed
use kobox.Block.State.{
  Block, DiskState, QueueState, disk_state_for, queue_state_for, with_disk, with_queue, disk_key,
  queue_key,
}

pub queues-with_disk :
    (disk : ℕ) (f : DiskState → DiskState) (b : Block) → (with_disk disk f b).queues ≡ b.queues
unfolding with_disk
queues-with_disk disk f b = ground arith

pub queue_state_for-with_disk :
    (disk : ℕ) (f : DiskState → DiskState) (b : Block) (queue : ℕ)
    → queue_state_for (with_disk disk f b) queue ≡ queue_state_for b queue
unfolding queue_state_for
queue_state_for-with_disk disk f b queue = rw (queues-with_disk disk f b)

pub disk_state_for-with_disk :
    (disk : ℕ) (f : DiskState → DiskState) (b : Block)
    → ((s : DiskState) → (f s).disk ≡ s.disk)
    → disk_state_for (with_disk disk f b) disk ≡ Option.map f (disk_state_for b disk)
unfolding disk_state_for with_disk
disk_state_for-with_disk disk f b keeps =
    ground (arith, Keyed.find-modify disk_key disk disk f b.disks keeps)

pub with_disk-with_disk :
    (disk : ℕ) (f g h : DiskState → DiskState) (b : Block)
    → ((s : DiskState) → (f s).disk ≡ s.disk)
    → ((s : DiskState) → g (f s) ≡ h s)
    → with_disk disk g (with_disk disk f b) ≡ with_disk disk h b
unfolding with_disk
with_disk-with_disk disk f g h b keeps same = elim (Bool-cases (disk == 0)) [
  | inl e ↦ rw e
  | inr e ↦ rw e (
      ap (λ ds. record b { disks = ds })
        (Keyed.modify-modify disk_key disk f g b.disks keeps
          ∙ ap (λ k. Keyed.modify disk_key disk k b.disks) (fun_ext same)))
]

pub queue_state_for-with_queue :
    (queue : ℕ) (f : QueueState → QueueState) (b : Block) (other : ℕ)
    → ((s : QueueState) → (f s).queue ≡ s.queue)
    → queue_state_for (with_queue queue f b) other
      ≡ (if other == queue then Option.map f (queue_state_for b queue) else queue_state_for b other)
unfolding queue_state_for with_queue
queue_state_for-with_queue queue f b other keeps =
    ground (arith, Keyed.find-modify queue_key queue other f b.queues keeps)
