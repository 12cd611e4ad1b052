-- ===== src/Block/Queue.antt =====
-- The request queue operations of src/linux_subsystem/block/block.c.
use Prim.Native.Nat.{bit_or}
use kobox.Prelude.{
  Bool, Option, if◌then◌else◌, inc32, ltb, neg, none, pos, some, ℕ, ℤ, ◌/=◌, ◌==◌, ◌^◌, ◌∷◌,
}
use kobox.Keyed
use kobox.Block.State.{Block, Limits, queue_state_for, with_queue, fresh_queue, queue_key}

-- `*p = v` for the first word of an object
abbrev pub write_word : (ℕ → ℕ) → ℕ → ℕ → ℕ → ℕ
write_word m p v q = if q == p then v else m q

-- calloc gives the node, or not
unfoldable pub queue_state_create : Bool → ℕ → ℕ → Block → Option Block
queue_state_create got_node queue tag_set b =
    if got_node then some (record b { queues = fresh_queue queue tag_set ∷ b.queues }) else none

unfoldable pub queue_state_remove : ℕ → Block → Block
queue_state_remove queue b = record b { queues = Keyed.remove queue_key queue b.queues }

-- `queue` is what the first calloc returned, NULL or an object whose words are 0.
unfoldable pub queue_alloc : ℕ → Bool → ℕ → Block → ℕ × Block
unfolding queue_state_create
queue_alloc queue got_node tag_set b =
    if queue == 0
    then (0, b)
    else let b' = record b { object_tag_set = write_word b.object_tag_set queue tag_set } in
      elim (queue_state_create got_node queue tag_set b') [ none ↦ (0, b') | some c ↦ (queue, c) ]

pub queue_tag_set : ℕ → Block → ℕ
unfolding queue_state_for
queue_tag_set queue b = elim (queue_state_for b queue) [
  | some s ↦ s.tag_set
  | none ↦ if queue == 0 then 0 else b.object_tag_set queue
]

pub queue_put : ℕ → Block → Block
queue_put queue = with_queue queue λ s. record s { put_count = inc32 s.put_count }

pub queue_destroy : ℕ → Block → Block
queue_destroy queue = with_queue queue λ s. record s { destroy_count = inc32 s.destroy_count }

-- A write to a field of `state->limits`.
abbrev set_limits : ℕ → (Limits → Limits) → Block → Block
set_limits queue f = with_queue queue λ s. record s { limits = f s.limits }

unfoldable pub queue_set_logical_block_size : ℕ → ℕ → Block → Block
queue_set_logical_block_size queue size b =
    if size /= 0 then set_limits queue (λ l. record l { logical_block_size = size }) b else b

unfoldable pub queue_set_physical_block_size : ℕ → ℕ → Block → Block
queue_set_physical_block_size queue size b =
    if size /= 0 then set_limits queue (λ l. record l { physical_block_size = size }) b else b

unfoldable pub queue_set_io_min : ℕ → ℕ → Block → Block
queue_set_io_min queue size = set_limits queue λ l. record l { io_min = size }

queue_set_io_opt : ℕ → ℕ → Block → Block
queue_set_io_opt queue size = set_limits queue λ l. record l { io_opt = size }

unfoldable pub queue_set_max_hw_sectors : ℕ → ℕ → Block → Block
queue_set_max_hw_sectors queue sectors = set_limits queue λ l. record l { max_hw_sectors = sectors }

unfoldable pub queue_set_max_segments : ℕ → ℕ → Block → Block
queue_set_max_segments queue segments = set_limits queue λ l. record l { max_segments = segments }

queue_set_max_discard_sectors : ℕ → ℕ → Block → Block
queue_set_max_discard_sectors queue sectors =
    set_limits queue λ l. record l { max_discard_sectors = sectors }

queue_set_max_discard_segments : ℕ → ℕ → Block → Block
queue_set_max_discard_segments queue segments =
    set_limits queue λ l. record l { max_discard_segments = segments }

queue_set_max_write_zeroes_sectors : ℕ → ℕ → Block → Block
queue_set_max_write_zeroes_sectors queue sectors =
    set_limits queue λ l. record l { max_write_zeroes_sectors = sectors }

queue_set_max_zone_append_sectors : ℕ → ℕ → Block → Block
queue_set_max_zone_append_sectors queue sectors =
    set_limits queue λ l. record l { max_zone_append_sectors = sectors }

queue_set_chunk_sectors : ℕ → ℕ → Block → Block
queue_set_chunk_sectors queue sectors = set_limits queue λ l. record l { chunk_sectors = sectors }

queue_set_dma_alignment : ℕ → ℕ → Block → Block
queue_set_dma_alignment queue mask = set_limits queue λ l. record l { dma_alignment = mask }

queue_set_virt_boundary : ℕ → ℕ → Block → Block
queue_set_virt_boundary queue mask = set_limits queue λ l. record l { virt_boundary_mask = mask }

-- `x != 0` as a stored flag
abbrev pub flag_of : ℕ → ℕ
flag_of x = if x /= 0 then 1 else 0

queue_set_write_cache : ℕ → ℕ → ℕ → Block → Block
queue_set_write_cache queue write_cache fua =
    set_limits queue λ l. record l { write_cache = flag_of write_cache; fua = flag_of fua }

queue_flag_set : ℕ → ℕ → Block → Block
queue_flag_set queue flag b =
    if ltb flag 32
    then set_limits queue (λ l. record l { flags = bit_or l.flags (2 ^ flag) }) b
    else b

-- `has_out` says whether the caller's pointer is not NULL; what goes through it is the option.
queue_limits : ℕ → Bool → Block → ℤ × Option Limits
queue_limits queue has_out b = elim (queue_state_for b queue) [
  | none ↦ (neg 22, none)
  | some s ↦ if has_out then (pos 0, some s.limits) else (neg 22, none)
]
