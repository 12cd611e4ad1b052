-- ===== src/Block/Tagset.antt =====
-- The tag sets of src/linux_subsystem/block/block.c: for each hardware queue a table of the
-- requests that hold its tags. The arrays `tags`, `rqs` and `next_tag` of
-- kb_block_tagset_state_t, indexed by the queue, are one list of records here.
mod Scan
pub mod Alloc
mod Elsewhere
pub mod Kept
pub mod Held
mod Tests
use kobox.Prelude.{
  Bool, List, Option, [], get_or, if◌then◌else◌, inc32, leb, ltb, neg, none, pos, replicate, set,
  some, suc, zero, ℕ, ℤ, ◌+◌, ◌-◌, ◌/=◌, ◌==◌, ◌||◌, ◌∷◌,
}
use kobox.Keyed

-- One entry of each of the arrays. `rqs` holds KB_BLOCK_SUBSYSTEM_TAGS_PER_QUEUE pointers.
pub record HwQueue : Type 0 where
  pub nr_tags : ℕ
  pub active_queues : ℕ
  pub rqs : List ℕ
  pub next_tag : ℕ

pub record Tagset : Type 0 where
  pub tag_set : ℕ
  pub hw : List HwQueue
  pub prepared_count : ℕ
  pub nr_hw_queues : ℕ
  pub map_queues_count : ℕ
  pub pci_map_queues_count : ℕ
  pub busy_iter_count : ℕ
  pub wait_completed_count : ℕ

abbrev pub queue_max : ℕ
queue_max = 4

abbrev pub tags_per_queue : ℕ
tags_per_queue = 64

abbrev pub uint32_max : ℕ
uint32_max = 0xffff_ffff

abbrev pub tagset_key : Tagset → ℕ
tagset_key t = t.tag_set

-- the static variable `tagsets`
abbrev pub Tagsets : Type 0
Tagsets = List Tagset

pub tagset_state_find : Tagsets → ℕ → Option Tagset
tagset_state_find ts tag_set = if tag_set == 0 then none else Keyed.find tagset_key tag_set ts

abbrev pub fresh_hw : HwQueue
fresh_hw = record {
  nr_tags = tags_per_queue;
  active_queues = 1;
  rqs = replicate tags_per_queue 0;
  next_tag = 1;
}

abbrev pub fresh_tagset : ℕ → Tagset
fresh_tagset tag_set = record {
  tag_set = tag_set;
  hw = replicate queue_max fresh_hw;
  prepared_count = 0;
  nr_hw_queues = 1;
  map_queues_count = 0;
  pci_map_queues_count = 0;
  busy_iter_count = 0;
  wait_completed_count = 0;
}

-- The Boolean says whether calloc gives a node where one is needed.
pub tagset_state_for : Bool → ℕ → Tagsets → Option Tagset × Tagsets
unfolding tagset_state_find
tagset_state_for got_node tag_set ts = elim (tagset_state_find ts tag_set) [
  | some t ↦ (some t, ts)
  | none ↦
      if tag_set == 0
      then (none, ts)
      else (if got_node
          then (some (fresh_tagset tag_set), fresh_tagset tag_set ∷ ts)
          else (none, ts))
]

pub tagset_state_remove : ℕ → Tagsets → Tagsets
tagset_state_remove tag_set ts = Keyed.remove tagset_key tag_set ts

-- `state = tagset_state_for(tag_set); if (state != NULL) { ... }`
pub with_tagset : Bool → ℕ → (Tagset → Tagset) → Tagsets → Tagsets
unfolding tagset_state_for
with_tagset got_node tag_set f ts =
    let (state, ts') = tagset_state_for got_node tag_set ts in
    elim state [ none ↦ ts' | some _ ↦ Keyed.modify tagset_key tag_set f ts' ]

tagset_prepare : Bool → ℕ → Tagsets → ℤ × Tagsets
tagset_prepare got_node tag_set ts =
    let (state, ts') = tagset_state_for got_node tag_set ts in
    elim state [
      | none ↦ (neg 12, ts')
      | some _ ↦ (
        pos 0,
        Keyed.modify tagset_key tag_set (λ t. record t { prepared_count = inc32 t.prepared_count })
            ts',
      )
    ]

-- `state->tags[i].active_queues = i < nr_hw_queues ? 1u : 0u`, from index `i` on
pub activate : ℕ → ℕ → List HwQueue → List HwQueue
activate i n [] = []
activate i n (q ∷ qs) =
    record q { active_queues = if ltb i n then 1 else 0 } ∷ activate (i + 1) n qs

abbrev clamp_queues : ℕ → ℕ
clamp_queues n = if n == 0 then 1 else if ltb queue_max n then queue_max else n

pub tagset_set_hw_queues : Bool → ℕ → ℕ → Tagsets → Tagsets
unfolding activate
tagset_set_hw_queues got_node tag_set n =
    with_tagset got_node tag_set
      λ t. record t { nr_hw_queues = clamp_queues n; hw = activate 0 (clamp_queues n) t.hw }

tagset_note_map_queues : Bool → ℕ → ℕ → Tagsets → Tagsets
tagset_note_map_queues got_node tag_set pci = with_tagset got_node tag_set λ t.
    if pci /= 0
    then record t { pci_map_queues_count = inc32 t.pci_map_queues_count }
    else record t { map_queues_count = inc32 t.map_queues_count }

tagset_note_busy_iter : Bool → ℕ → Tagsets → Tagsets
tagset_note_busy_iter got_node tag_set =
    with_tagset got_node tag_set λ t. record t { busy_iter_count = inc32 t.busy_iter_count }

tagset_note_wait_completed : Bool → ℕ → Tagsets → Tagsets
tagset_note_wait_completed got_node tag_set =
    with_tagset got_node tag_set
      λ t. record t { wait_completed_count = inc32 t.wait_completed_count }

abbrev pub hw_at : Tagset → ℕ → HwQueue
hw_at t i = get_or t.hw i fresh_hw

-- A write to entry `i` of the arrays of the tag set that was found.
pub write_hw : ℕ → ℕ → (HwQueue → HwQueue) → Tagsets → Tagsets
write_hw tag_set i f ts =
    Keyed.modify tagset_key tag_set (λ t. record t { hw = set t.hw i (f (hw_at t i)) }) ts

-- The loop of tagset_alloc_tag; the number counts the rounds left.
pub scan_tags : List ℕ → ℕ → ℕ → ℕ → Option ℕ
scan_tags rqs limit zero tag = none
scan_tags rqs limit (suc rounds) tag =
    let t = if tag == 0 || leb limit tag then 1 else tag in
    let rest = scan_tags rqs limit rounds (inc32 t) in if get_or rqs t 0 == 0 then some t else rest

pub next_after : ℕ → ℕ → ℕ
next_after limit tag = if leb limit (inc32 tag) then 1 else inc32 tag

-- What tagset_alloc_tag does with the entry of its queue.
pub alloc_from : HwQueue → ℕ × HwQueue
unfolding next_after
alloc_from q =
    if leb q.nr_tags 1
    then (0, q)
    else elim (scan_tags q.rqs q.nr_tags (q.nr_tags - 1) q.next_tag) [
      | none ↦ (uint32_max, q)
      | some tag ↦ (tag, record q { next_tag = next_after q.nr_tags tag })
    ]

pub tagset_alloc_tag : Bool → ℕ → ℕ → Tagsets → ℕ × Tagsets
unfolding write_hw tagset_state_for
tagset_alloc_tag got_node tag_set i ts =
    let (state, ts') = tagset_state_for got_node tag_set ts in
    elim state [
      | none ↦ (1, ts')
      | some t ↦
          if leb queue_max i
          then (1, ts')
          else ((alloc_from (hw_at t i)).0, write_hw tag_set i (λ q. (alloc_from q).1) ts')
    ]

pub tagset_bind_request : Bool → ℕ → ℕ → ℕ → ℕ → Tagsets → ℤ × Tagsets
unfolding write_hw tagset_state_for
tagset_bind_request got_node tag_set i tag request ts =
    let (state, ts') = tagset_state_for got_node tag_set ts in
    elim state [
      | none ↦ (neg 22, ts')
      | some t ↦
          if leb queue_max i
          then (neg 22, ts')
          else if leb (hw_at t i).nr_tags tag
          then (neg 22, ts')
          else (pos 0, write_hw tag_set i (λ q. record q { rqs = set q.rqs tag request }) ts')
    ]

pub tagset_unbind_request : Bool → ℕ → ℕ → ℕ → ℕ → Tagsets → Tagsets
unfolding write_hw tagset_state_for
tagset_unbind_request got_node tag_set i tag request ts =
    let (state, ts') = tagset_state_for got_node tag_set ts in
    elim state [
      | none ↦ ts'
      | some t ↦
          if leb queue_max i
          then ts'
          else if leb (hw_at t i).nr_tags tag
          then ts'
          else if get_or (hw_at t i).rqs tag 0 == request
          then write_hw tag_set i (λ q. record q { rqs = set q.rqs tag 0 }) ts'
          else ts'
    ]

pub tagset_request : Bool → ℕ → ℕ → ℕ → Tagsets → ℕ × Tagsets
unfolding tagset_state_for
tagset_request got_node tag_set i tag ts =
    let (state, ts') = tagset_state_for got_node tag_set ts in
    elim state [
      | none ↦ (0, ts')
      | some t ↦
          if leb queue_max i
          then (0, ts')
          else if leb (hw_at t i).nr_tags tag
          then (0, ts')
          else (get_or (hw_at t i).rqs tag 0, ts')
    ]
