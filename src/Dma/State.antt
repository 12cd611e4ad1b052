-- ===== src/Dma/State.antt =====
-- The state of src/linux_subsystem/dma/dma.c and its environment. Pointers and device addresses
-- are numbers and NULL is 0. `calls` is the history of the backend calls that change mappings,
-- the newest first; what a backend answers may depend on that history.
use kobox.Prelude.{
  Bool, List, Option, Status, [], false, if◌then◌else◌, invalid, is_success, no_memory, none, some,
  success, ℕ, ◌%◌, ◌+◌, ◌/◌, ◌==◌, ◌∷◌,
}

-- kb_subsystem_dma_mapping_t
pub record Mapping : Type 0 where
  pub cpu_addr : ℕ
  pub dma_addr : ℕ
  pub size : ℕ
  pub device : ℕ
  pub borrowed_window : Bool
  pub persistent_allocation : Bool

-- kb_subsystem_dma_window_t; `page_dma` is the array of KB_DEVICE_DMA_MAPPING_MAX_PAGES entries.
pub record Window : Type 0 where
  pub backend : ℕ
  pub device : ℕ
  pub scope_start : ℕ
  pub scope_size : ℕ
  pub direction : ℕ
  pub mapped_start : ℕ
  pub mapped_size : ℕ
  pub mapped_page_count : ℕ
  pub page_dma : ℕ → ℕ
  pub borrowers : ℕ
  pub active : Bool
  pub mapped : Bool

-- A call that the code made, with its arguments.
pub data Call : Type 0 where
  map_pages : ℕ → ℕ → ℕ → ℕ → Call
  map : ℕ → ℕ → ℕ → ℕ → Call
  map_fixed : ℕ → ℕ → ℕ → ℕ → ℕ → Call
  unmap : ℕ → ℕ → ℕ → ℕ → Call
  alloc : ℕ → ℕ → Call
  free : ℕ → ℕ → ℕ → ℕ → Call

-- The file's static variables, and the history.
pub record Dma : Type 0 where
  pub mappings : List Mapping
  pub window : Window
  pub calls : List Call

-- kb_dma_buffer_t, without its flags
pub record Buffer : Type 0 where
  pub cpu_addr : ℕ
  pub dma_addr : ℕ
  pub size : ℕ

-- kb_device_backend_ops_t: `none` or `false` for a NULL function pointer. An array that a
-- function fills is given with its old contents.
pub record Ops : Type 0 where
  pub device_at : Option (List Call → Status × ℕ)
  pub dma_alloc : Option (List Call → ℕ → ℕ → Status × Buffer)
  pub dma_free : Bool
  pub dma_map : Option (List Call → ℕ → ℕ → ℕ → ℕ → Status × ℕ)
  pub dma_map_pages : Option (List Call → ℕ → ℕ → ℕ → ℕ → (ℕ → ℕ) → ℕ → Status × (ℕ → ℕ))
  pub dma_map_fixed : Option (List Call → ℕ → ℕ → ℕ → ℕ → ℕ → Status)
  pub dma_unmap : Bool

-- kb_device_backend_get_ops
abbrev pub Backends : Type 0
Backends = ℕ → Option Ops

abbrev pub page_size : ℕ
page_size = 4096

abbrev pub max_pages : ℕ
max_pages = 512

abbrev pub bidirectional : ℕ
bidirectional = 3

abbrev pub uintptr_max : ℕ
uintptr_max = 0xffff_ffff_ffff_ffff

abbrev pub zero_window : Window
zero_window = record {
  backend = 0;
  device = 0;
  scope_start = 0;
  scope_size = 0;
  direction = 0;
  mapped_start = 0;
  mapped_size = 0;
  mapped_page_count = 0;
  page_dma = λ i. 0;
  borrowers = 0;
  active = false;
  mapped = false;
}

abbrev pub initial : Dma
initial = record { mappings = []; window = zero_window; calls = [] }

-- `size / PAGE_SIZE + (size % PAGE_SIZE != 0)`
abbrev pub pages_of : ℕ → ℕ
pages_of size = size / page_size + (if size % page_size == 0 then 0 else 1)

unfoldable pub has_unmap : Backends → ℕ → Bool
has_unmap env backend = elim (env backend) [ none ↦ false | some ops ↦ ops.dma_unmap ]

-- kb_subsystem_dma_default_device
unfoldable pub default_device : Backends → ℕ → List Call → ℕ
default_device env backend calls = elim (env backend) [
  | none ↦ 0
  | some ops ↦ elim ops.device_at [
    | none ↦ 0
    | some device_at ↦ if is_success (device_at calls).0 then (device_at calls).1 else 0
  ]
]

-- `if (device == NULL) device = kb_subsystem_dma_default_device(backend)`
abbrev pub device_or_default : Backends → ℕ → ℕ → List Call → ℕ
device_or_default env backend device calls =
    if device == 0 then default_device env backend calls else device

-- remember_dma_mapping_full; `got_node` says whether kb_kzalloc gave the entry.
unfoldable pub remember : Bool → Mapping → Dma → Status × Dma
remember got_node m s =
    if m.cpu_addr == 0
    then (invalid, s)
    else if m.size == 0
    then (invalid, s)
    else if got_node
    then (success, record s { mappings = m ∷ s.mappings })
    else (no_memory, s)

-- How many live mappings borrow from the window.
unfoldable pub borrowed_count : List Mapping → ℕ
borrowed_count [] = 0
borrowed_count (m ∷ ms) = (if m.borrowed_window then 1 else 0) + borrowed_count ms
