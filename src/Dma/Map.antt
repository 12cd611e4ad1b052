-- ===== src/Dma/Map.antt =====
-- The mapping calls of src/linux_subsystem/dma/dma.c: allocation, single maps, page maps, unmap,
-- and the lookups in the record of mappings.
pub mod Inv
pub mod Reach
pub mod Lookup
pub mod Prealloc
mod Tests
use kobox.Prelude.{
  Bool, List, Option, Status, [], add64, false, if◌then◌else◌, invalid, io_error, is_success, leb,
  ltb, none, not, some, success, true, unsupported, ℕ, ◌&&◌, ◌-◌, ◌/=◌, ◌==◌, ◌||◌, ◌∷◌,
}
use kobox.Dma.State.{
  Mapping, Window, Call, map, map_fixed, unmap, alloc, free, Dma, Buffer, Ops, Backends, page_size,
  bidirectional, uintptr_max, has_unmap, device_or_default, remember, pages_of,
}
use kobox.Dma.State
use kobox.Dma.Window.{PageRequest, window_map_pages}

abbrev pub is_for : ℕ → ℕ → Mapping → Bool
is_for device dma_addr m = m.device == device && m.dma_addr == dma_addr

-- take_dma_mapping: the entry that was unlinked, and the rest.
pub take_mapping : ℕ → ℕ → List Mapping → Option Mapping × List Mapping
take_mapping device dma_addr [] = (none, [])
take_mapping device dma_addr (m ∷ ms) =
    let rest = take_mapping device dma_addr ms in
    if is_for device dma_addr m then (some m, ms) else (rest.0, m ∷ rest.1)

pub has_transient_mapping : ℕ → ℕ → List Mapping → Bool
has_transient_mapping device dma_addr [] = false
has_transient_mapping device dma_addr (m ∷ ms) =
    if is_for device dma_addr m && not m.persistent_allocation
    then true
    else has_transient_mapping device dma_addr ms

-- The entry for a mapping that the backend made for this caller alone.
abbrev pub owned : ℕ → ℕ → ℕ → ℕ → Bool → Mapping
owned cpu_addr dma_addr size device persistent = record {
  cpu_addr = cpu_addr;
  dma_addr = dma_addr;
  size = size;
  device = device;
  borrowed_window = false;
  persistent_allocation = persistent;
}

abbrev pub logged : Call → Dma → Dma
logged c s = record s { calls = c ∷ s.calls }

-- `if (ops->f != NULL) ops->f(...)`
abbrev pub call_if : Bool → Call → Dma → Dma
call_if has c s = if has then logged c s else s

-- kb_subsystem_dma_alloc: the CPU address or NULL, and `*dma_handle` where it is written.
-- `has_handle` says whether the caller's pointer is not NULL.
pub dma_alloc : Backends → Bool → ℕ → ℕ → ℕ → Bool → Dma → ℕ × Option ℕ × Dma
dma_alloc env got_node backend device size has_handle s =
    if backend == 0 || size == 0 || not has_handle
    then (0, none, s)
    else let dev = device_or_default env backend device s.calls in
      if dev == 0 then (0, none, s) else elim (env backend) [
        | none ↦ (0, none, s)
        | some ops ↦ elim ops.dma_alloc [
          | none ↦ (0, none, s)
          | some call ↦
              let (status, b) = call s.calls dev size in
              let s' = logged (alloc dev size) s in
              if not (is_success status)
              then (0, none, s')
              else let (st, t) =
                  remember got_node (owned b.cpu_addr b.dma_addr b.size dev true) s' in
                if is_success st
                then (b.cpu_addr, some b.dma_addr, t)
                else (0, none, call_if ops.dma_free (free dev b.cpu_addr b.dma_addr b.size) t)
        ]
      ]

-- The search of kb_subsystem_dma_free, by both addresses and not by the device.
pub take_buffer : ℕ → ℕ → List Mapping → Option Mapping × List Mapping
take_buffer cpu_addr dma_handle [] = (none, [])
take_buffer cpu_addr dma_handle (m ∷ ms) =
    let rest = take_buffer cpu_addr dma_handle ms in
    if m.cpu_addr == cpu_addr && m.dma_addr == dma_handle
    then (some m, ms)
    else (rest.0, m ∷ rest.1)

abbrev has_free : Backends → ℕ → Bool
has_free env backend = elim (env backend) [ none ↦ false | some ops ↦ ops.dma_free ]

pub dma_free : Backends → ℕ → ℕ → ℕ → ℕ → Dma → Dma
unfolding take_buffer
dma_free env backend size cpu_addr dma_handle s =
    let (found, rest) = take_buffer cpu_addr dma_handle s.mappings in
    elim found [
      | none ↦ s
      | some m ↦
          call_if (has_free env backend)
            (free m.device m.cpu_addr m.dma_addr (if size == 0 then m.size else size))
            (record s { mappings = rest })
    ]

-- dma_map_with_lifetime: the address that it returns, `*out_status`, the new state.
pub map_with_lifetime : Backends → Bool → ℕ → ℕ → ℕ → ℕ → ℕ → Bool → Dma → ℕ × Status × Dma
map_with_lifetime env got_node backend device cpu_addr size direction persistent s =
    if backend == 0 || cpu_addr == 0 || size == 0
    then (0, invalid, s)
    else let dev = device_or_default env backend device s.calls in
      if dev == 0 then (0, invalid, s) else elim (env backend) [
        | none ↦ (0, unsupported, s)
        | some ops ↦ elim ops.dma_map [
          | none ↦ (0, unsupported, s)
          | some call ↦
              if persistent && not ops.dma_unmap
              then (0, unsupported, s)
              else let (status, dma_addr) = call s.calls dev cpu_addr size direction in
                let s' = logged (map dev cpu_addr size direction) s in
                let undo = unmap dev dma_addr size direction in
                if not (is_success status)
                then (0, status, s')
                else if dma_addr == 0
                then (0, io_error, call_if ops.dma_unmap undo s')
                else let (st, t) =
                    remember got_node (owned cpu_addr dma_addr size dev persistent) s' in
                  if is_success st
                  then (dma_addr, success, t)
                  else (0, st, call_if ops.dma_unmap undo t)
        ]
      ]

dma_map : Backends → Bool → ℕ → ℕ → ℕ → ℕ → ℕ → Dma → ℕ × Status × Dma
unfolding map_with_lifetime
dma_map env got_node backend device cpu_addr size direction =
    map_with_lifetime env got_node backend device cpu_addr size direction false

dma_map_persistent_bidirectional : Backends → Bool → ℕ → ℕ → ℕ → ℕ → Dma → ℕ × Status × Dma
unfolding map_with_lifetime
dma_map_persistent_bidirectional env got_node backend device cpu_addr size =
    map_with_lifetime env got_node backend device cpu_addr size bidirectional true

-- The path of kb_subsystem_dma_map_pages past the window.
pub map_pages_direct : Ops → Bool → PageRequest → (ℕ → ℕ) → ℕ → Dma → Status × (ℕ → ℕ) × Dma
map_pages_direct ops got_node r out out_capacity s = elim ops.dma_map_pages [
  | none ↦ (unsupported, out, s)
  | some call ↦
      let (status, out') = call s.calls r.device r.cpu_addr r.size r.direction out out_capacity in
      let s' = logged (State.map_pages r.device r.cpu_addr r.size r.direction) s in
      if not (is_success status)
      then (status, out', s')
      else let (st, t) = remember got_node (owned r.cpu_addr (out' 0) r.size r.device false) s' in
        if is_success st
        then (success, out', t)
        else (st, out', call_if ops.dma_unmap (unmap r.device (out' 0) r.size r.direction) t)
]

-- The window first, the backend itself if the window does not apply.
pub map_pages_for : Backends → Ops → Bool → PageRequest → (ℕ → ℕ) → ℕ → Dma → Status × (ℕ → ℕ) × Dma
map_pages_for env ops got_node r out out_capacity s =
    let (status, used, out', t) = window_map_pages env got_node r out out_capacity s in
    if used then (status, out', t) else map_pages_direct ops got_node r out out_capacity s

-- kb_subsystem_dma_map_pages, with the device that was found.
-- `has_out` says whether the caller's array is not NULL.
pub map_pages : Backends → Bool → PageRequest → Bool → (ℕ → ℕ) → ℕ → Dma → Status × (ℕ → ℕ) × Dma
map_pages env got_node q has_out out out_capacity s =
    if q.backend == 0 || q.cpu_addr == 0 || q.size == 0 || not has_out || out_capacity == 0
    then (invalid, out, s)
    else let dev = device_or_default env q.backend q.device s.calls in
      if dev == 0 then (invalid, out, s) else elim (env q.backend) [
        | none ↦ (unsupported, out, s)
        | some ops ↦ elim ops.dma_map_pages [
          | none ↦ (unsupported, out, s)
          | some _ ↦ map_pages_for env ops got_node (record q { device = dev }) out out_capacity s
        ]
      ]

pub dma_map_fixed : Backends → Bool → ℕ → ℕ → ℕ → ℕ → ℕ → ℕ → Dma → Status × Dma
dma_map_fixed env got_node backend device cpu_addr size dma_addr direction s =
    if backend == 0 || cpu_addr == 0 || size == 0
    then (invalid, s)
    else let dev = device_or_default env backend device s.calls in
      if dev == 0 then (invalid, s) else elim (env backend) [
        | none ↦ (unsupported, s)
        | some ops ↦ elim ops.dma_map_fixed [
          | none ↦ (unsupported, s)
          | some call ↦
              let status = call s.calls dev cpu_addr size dma_addr direction in
              let s' = logged (map_fixed dev cpu_addr size dma_addr direction) s in
              if not (is_success status)
              then (status, s')
              else let (st, t) = remember got_node (owned cpu_addr dma_addr size dev false) s' in
                if is_success st
                then (success, t)
                else (st, call_if ops.dma_unmap (unmap dev dma_addr size direction) t)
        ]
      ]

-- One borrower fewer; `dma_window.borrowers--` runs only above 0.
abbrev pub give_back : Window → Window
give_back w = if w.borrowers /= 0 then record w { borrowers = w.borrowers - 1 } else w

pub dma_unmap : Backends → ℕ → ℕ → ℕ → ℕ → ℕ → Dma → Dma
dma_unmap env backend device dma_addr size direction s =
    if backend == 0 || size == 0
    then s
    else let dev = device_or_default env backend device s.calls in
      let (found, rest) = take_mapping dev dma_addr s.mappings in
      let t = record s { mappings = rest } in
      let call =
        call_if (dev /= 0 && has_unmap env backend) (unmap dev dma_addr size direction) t in
      elim found [
        | none ↦ call
        | some m ↦ if m.borrowed_window then record t { window = give_back s.window } else call
      ]

-- kb_subsystem_dma_cpu_addr: the address and `*out_available`.
pub dma_cpu_addr : ℕ → List Mapping → ℕ × ℕ
dma_cpu_addr dma_addr [] = (0, 0)
dma_cpu_addr dma_addr (m ∷ ms) =
    if ltb dma_addr m.dma_addr || leb (add64 m.dma_addr m.size) dma_addr
    then dma_cpu_addr dma_addr ms
    else (add64 m.cpu_addr (dma_addr - m.dma_addr), m.size - (dma_addr - m.dma_addr))

-- The loop of kb_subsystem_dma_mapping_error, then the function: 1 for the address 0.
pub is_mapped : ℕ → List Mapping → Bool
is_mapped dma_addr [] = false
is_mapped dma_addr (m ∷ ms) =
    if leb m.dma_addr dma_addr && ltb dma_addr (add64 m.dma_addr m.size)
    then true
    else is_mapped dma_addr ms

pub mapping_error : ℕ → List Mapping → ℕ
unfolding is_mapped
mapping_error dma_addr ms =
    if dma_addr == 0 then 1 else if is_mapped dma_addr ms then 0 else if dma_addr == 0 then 1 else 0
