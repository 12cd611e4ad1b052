-- ===== src/Usb/Storage/Disk/Refused.antt =====
-- The block layer after an allocation for a disk of src/linux_subsystem/usb/storage.c has failed.
use kobox.Prelude.{
  Bool, Bool-cases, List, ap, arith, inl, inr, none, not, refl, some, sym, true, ℕ, ◌&&◌, ◌/=◌,
  ◌==◌, ◌||◌, ◌∙◌, ◌∷◌, ◌≡◌, ◌≢◌, ◌⊎◌,
}
use kobox.Keyed
use kobox.Block.State.{
  Block, queue_state_for, disk_state_for, queue_key, disk_key, fresh_queue, fresh_disk,
}
use kobox.Block.Queue.{queue_alloc, queue_state_create, queue_state_remove}
use kobox.Block.Disk.{disk_alloc, disk_state_create, disk_state_remove}
use kobox.Block.Objects.{object_free}
use kobox.Usb.Storage.Disk.{Objects, free_objects}

-- The allocators give addresses that no live object has.
pub record IsFresh (o : Objects) (b : Block) : Type 0 where
  pub queue_disk : o.new_queue ≢ 0 → o.new_queue ≢ o.new_disk
  pub disk_no_queue : queue_state_for b o.new_disk ≡ none
  pub part0_no_queue : queue_state_for b o.new_part0 ≡ none
  pub queue_no_disk : disk_state_for b o.new_queue ≡ none
  pub part0_no_disk : disk_state_for b o.new_part0 ≡ none

abbrev pub all_given : Objects → Bool
all_given o =
    o.new_tag_set /= 0
    && o.new_queue /= 0
    && o.queue_node
    && o.new_disk /= 0
    && o.disk_node
    && o.new_part0 /= 0

-- Each queue and each disk has the state it had.
abbrev pub IsAlike : Block → Block → Type 0
IsAlike b b' =
    (x : ℕ)
    → (queue_state_for b' x ≡ queue_state_for b x) × (disk_state_for b' x ≡ disk_state_for b x)

-- A search of the list `ys` finds what one of `xs` does.
abbrev AlikeList : {A : Type 0} → (A → ℕ) → List A → List A → Type 0
AlikeList key xs ys = (j : ℕ) → j ≢ 0 → Keyed.find key j ys ≡ Keyed.find key j xs

module _ {A : Type 0} (key : A → ℕ) where
  remove-AlikeList :
      (k : ℕ) (xs ys : List A)
      → (k ≢ 0 → Keyed.find key k xs ≡ none)
      → AlikeList key xs ys
      → AlikeList key xs (Keyed.remove key k ys)
  remove-AlikeList k xs ys h alike j n = elim (Bool-cases (j == k)) [
    | inl e ↦
        let same : j ≡ k = ground arith in
        let gone : Keyed.find key j xs ≡ none = rw same (h (ground arith)) in
        Keyed.find-remove-none key k j ys (alike j n ∙ gone) ∙ sym gone
    | inr e ↦ Keyed.find-remove_ne key k j ys (ground arith) ∙ alike j n
  ]

  remove_front : (k : ℕ) (x : A) (xs : List A) → key x ≡ k → Keyed.remove key k (x ∷ xs) ≡ xs
  unfolding Keyed.remove
  remove_front k x xs h = ground arith

  remove_behind :
      (k : ℕ) (x : A) (xs : List A)
      → key x ≢ k
      → Keyed.remove key k (x ∷ xs) ≡ x ∷ Keyed.remove key k xs
  unfolding Keyed.remove
  remove_behind k x xs h = ground arith

abbrev queue_of : Objects → Block → ℕ × Block
queue_of o b = queue_alloc o.new_queue o.queue_node o.new_tag_set b

queue_of_cases :
    (o : Objects) (b : Block)
    → ((queue_of o b).1.disks ≡ b.disks)
      × ((((queue_of o b).0 ≡ 0) × ((queue_of o b).1.queues ≡ b.queues))
          ⊎ (((queue_of o b).0 ≡ o.new_queue)
              × (o.new_queue ≢ 0)
              × ((queue_of o b).1.queues ≡ fresh_queue o.new_queue o.new_tag_set ∷ b.queues)))
unfolding queue_alloc queue_state_create
queue_of_cases o b = elim (Bool-cases (o.new_queue == 0)) [
  | inl e ↦ rw (queue_alloc, e) (refl, inl (refl, refl))
  | inr e ↦ elim (Bool-cases o.queue_node) [
    | inl n ↦ rw (queue_alloc, e, n) (refl, inr (refl, ground arith, refl))
    | inr n ↦ rw (queue_alloc, e, n) (refl, inl (refl, refl))
  ]
]

disk_alloc_cases :
    (disk : ℕ) (got : Bool) (b : Block)
    → ((disk_alloc disk got b).1.queues ≡ b.queues)
      × ((((disk_alloc disk got b).0 ≡ 0) × ((disk_alloc disk got b).1.disks ≡ b.disks))
          ⊎ (((disk_alloc disk got b).0 ≡ disk)
              × (disk ≢ 0)
              × ((disk_alloc disk got b).1.disks ≡ fresh_disk disk b.next_disk_number ∷ b.disks)))
unfolding disk_alloc disk_state_create
disk_alloc_cases disk got b = elim (Bool-cases (disk == 0)) [
  | inl e ↦ rw (disk_alloc, e) (refl, inl (refl, refl))
  | inr e ↦ elim (Bool-cases got) [
    | inl n ↦ rw (disk_alloc, e, n) (refl, inr (refl, ground arith, refl))
    | inr n ↦ rw (disk_alloc, e, n) (refl, inl (refl, refl))
  ]
]

module _ (o : Objects) (b : Block) (new : IsFresh o b) where
  abbrev q : ℕ × Block
  q = queue_of o b

  abbrev d : ℕ × Block
  d = disk_alloc o.new_disk o.disk_node (queue_of o b).1

  -- No queue has the address of the disk or of the part, and no disk that of the queue.
  absent_queue :
      (k : ℕ) → queue_state_for b k ≡ none → k ≢ 0 → Keyed.find queue_key k b.queues ≡ none
  unfolding queue_state_for
  absent_queue k h n = ground arith

  absent_disk : (k : ℕ) → disk_state_for b k ≡ none → k ≢ 0 → Keyed.find disk_key k b.disks ≡ none
  unfolding disk_state_for
  absent_disk k h n = ground arith

  no_queue_at_disk : d.0 ≢ 0 → Keyed.find queue_key d.0 b.queues ≡ none
  no_queue_at_disk n = elim (disk_alloc_cases o.new_disk o.disk_node q.1).1 [
    | inl (z, _) ↦ absurd (n z)
    | inr (e, m, _) ↦ rw e (absent_queue o.new_disk new.disk_no_queue m)
  ]

  no_disk_at_queue : q.0 ≢ 0 → Keyed.find disk_key q.0 b.disks ≡ none
  no_disk_at_queue n = elim (queue_of_cases o b).1 [
    | inl (z, _) ↦ absurd (n z)
    | inr (e, m, _) ↦ rw e (absent_disk o.new_queue new.queue_no_disk m)
  ]

  queues_without : AlikeList queue_key b.queues (Keyed.remove queue_key q.0 q.1.queues)
  queues_without = elim (queue_of_cases o b).1 [
    | inl (z, e) ↦
        rw e (remove-AlikeList queue_key q.0 b.queues b.queues (λ n. absurd (n z)) (λ j m. refl))
    | inr (a, n, e) ↦ λ j m. ap (Keyed.find queue_key j) (
        ap (Keyed.remove queue_key q.0) e
        ∙ remove_front queue_key q.0 (fresh_queue o.new_queue o.new_tag_set) b.queues (sym a))
  ]

  disks_before : d.1.disks ≡ b.disks → AlikeList disk_key b.disks d.1.disks
  disks_before e j m = ap (Keyed.find disk_key j) e

  disks_without :
      AlikeList disk_key b.disks (Keyed.remove disk_key d.0 (Keyed.remove disk_key q.0 d.1.disks))
  disks_without = elim (disk_alloc_cases o.new_disk o.disk_node q.1).1 [
    | inl (z, e) ↦
        remove-AlikeList disk_key d.0 b.disks (Keyed.remove disk_key q.0 d.1.disks)
          (λ n. absurd (n z))
          (remove-AlikeList disk_key q.0 b.disks d.1.disks no_disk_at_queue
            (disks_before (e ∙ (queue_of_cases o b).0)))
    | inr (a, n, e) ↦
        let x = fresh_disk o.new_disk q.1.next_disk_number in
        let apart : x.disk ≢ q.0 = apart_queue n in
        let shape : Keyed.remove disk_key d.0 (Keyed.remove disk_key q.0 d.1.disks)
            ≡ Keyed.remove disk_key q.0 b.disks =
          ap (λ ds. Keyed.remove disk_key d.0 (Keyed.remove disk_key q.0 ds))
            (e ∙ ap (λ ds. x ∷ ds) (queue_of_cases o b).0)
          ∙ ap (Keyed.remove disk_key d.0) (remove_behind disk_key q.0 x b.disks apart)
          ∙ remove_front disk_key d.0 x (Keyed.remove disk_key q.0 b.disks) (sym a) in
        λ j m.
          ap (Keyed.find disk_key j) shape
          ∙ remove-AlikeList disk_key q.0 b.disks b.disks no_disk_at_queue (λ i l. refl) j m
  ]
    where
      apart_queue : o.new_disk ≢ 0 → o.new_disk ≢ q.0
      apart_queue n s = elim (queue_of_cases o b).1 [
        | inl (z, _) ↦ n (s ∙ z)
        | inr (e, m, _) ↦ new.queue_disk m (sym (s ∙ e))
      ]

  -- The objects that were allocated are freed, and no state is left of them.
  pub free_objects-IsAlike : IsAlike b (free_objects q.0 d.0 o.new_part0 d.1)
  unfolding free_objects object_free queue_state_remove disk_state_remove queue_state_for
      disk_state_for
  free_objects-IsAlike x = elim (Bool-cases (x == 0)) [
    | inl z ↦ rw z (refl, refl)
    | inr z ↦ rw z (
      remove-AlikeList queue_key o.new_part0 b.queues
          (Keyed.remove queue_key d.0 (Keyed.remove queue_key q.0 d.1.queues))
          (absent_queue o.new_part0 new.part0_no_queue)
          (remove-AlikeList queue_key d.0 b.queues (Keyed.remove queue_key q.0 d.1.queues)
            no_queue_at_disk
            (λ j m.
              ap (λ qs. Keyed.find queue_key j (Keyed.remove queue_key q.0 qs))
                (disk_alloc_cases o.new_disk o.disk_node q.1).0
              ∙ queues_without j m))
          x (ground arith),
      remove-AlikeList disk_key o.new_part0 b.disks
          (Keyed.remove disk_key d.0 (Keyed.remove disk_key q.0 d.1.disks))
          (absent_disk o.new_part0 new.part0_no_disk) disks_without x (ground arith),
    )
  ]

  -- An allocation gives NULL, or the block layer gets no node.
  pub some_null :
      (o.new_tag_set == 0 || q.0 == 0 || d.0 == 0 || o.new_part0 == 0) ≡ not (all_given o)
  unfolding queue_alloc queue_state_create disk_alloc disk_state_create
  some_null = ground arith

  -- Where all were given, the queue is the new one, and its state is fresh.
  pub all_given_queue :
      all_given o ≡ true
      → (q.0 ≡ o.new_queue) × (queue_state_for d.1 q.0 ≡ some (fresh_queue q.0 o.new_tag_set))
  unfolding queue_alloc queue_state_create disk_alloc disk_state_create queue_state_for Keyed.find
  all_given_queue h = ground arith
