-- ===== src/Dma/Map/Prealloc.antt =====
-- kb_subsystem_dma_preallocated_pages of src/linux_subsystem/dma/dma.c: device addresses for a
-- part of a persistent allocation, one for each page that it touches.
use kobox.Prelude.{
  All, Any, Bool, Bool-cases, List, Status, [], ap, arith, if◌then◌else◌, inl, inr, invalid, leb,
  ltb, not, not_found, success, true, unsupported, ℕ, ◌%◌, ◌&&◌, ◌*◌, ◌+◌, ◌-◌, ◌/◌, ◌<◌, ◌==◌,
  ◌||◌, ◌∷◌, ◌≡◌, ◌≤◌,
}
use kobox.Dma.State.{Mapping, page_size, pages_of, uintptr_max}

-- The tests that pass over an entry, negated: a persistent mapping of the device, whose end does
-- not wrap and which holds the whole request.
parent_of : ℕ → ℕ → ℕ → Mapping → Bool
parent_of device start size m =
    m.persistent_allocation
    && m.device == device
    && not (ltb (uintptr_max - m.size) m.cpu_addr)
    && leb m.cpu_addr start
    && leb (start + size) (m.cpu_addr + m.size)

abbrev pub page_count_for : ℕ → ℕ → ℕ
page_count_for start size = pages_of (start % page_size + size)

abbrev dma_start_in : Mapping → ℕ → ℕ
dma_start_in m start = m.dma_addr + (start - m.cpu_addr)

-- `x & ~(PAGE_SIZE - 1)`
abbrev page_base_of : ℕ → ℕ
page_base_of x = x - x % page_size

-- The body of the loop for the entry that holds the request.
subpages : Mapping → ℕ → ℕ → (ℕ → ℕ) → ℕ → Status × (ℕ → ℕ)
subpages m start size out out_capacity =
    let count = page_count_for start size in
    let base = page_base_of (dma_start_in m start) in
    if ltb (uintptr_max - start % page_size) size
    then (invalid, out)
    else if count == 0 || ltb out_capacity count
    then (unsupported, out)
    else if ltb (uintptr_max - m.dma_addr) (start - m.cpu_addr)
    then (invalid, out)
    else if ltb 1 count && ltb (uintptr_max / page_size) (count - 1)
    then (invalid, out)
    else if ltb 1 count && ltb (uintptr_max - base) ((count - 1) * page_size)
    then (invalid, out)
    else (
      success,
      λ i.
          if i == 0
          then dma_start_in m start
          else if ltb i count
          then base + i * page_size
          else out i,
    )

search_parents : ℕ → ℕ → ℕ → (ℕ → ℕ) → ℕ → List Mapping → Status × (ℕ → ℕ)
search_parents device start size out out_capacity [] = (not_found, out)
search_parents device start size out out_capacity (m ∷ ms) =
    let rest = search_parents device start size out out_capacity ms in
    if parent_of device start size m then subpages m start size out out_capacity else rest

-- `has_out` says whether the caller's array is not NULL.
unfoldable pub preallocated_pages : ℕ → ℕ → ℕ → Bool → (ℕ → ℕ) → ℕ → List Mapping → Status × (ℕ → ℕ)
unfolding parent_of subpages search_parents
preallocated_pages device cpu_addr size has_out out out_capacity ms =
    if device == 0 || cpu_addr == 0 || size == 0 || not has_out || out_capacity == 0
    then (invalid, out)
    else if ltb (uintptr_max - size) cpu_addr
    then (invalid, out)
    else search_parents device cpu_addr size out out_capacity ms

-- Byte `j` of the request lies in page `page_of j` of the list, `offset_of j` bytes behind the
-- address that the list has for that page.
abbrev pub page_of : ℕ → ℕ → ℕ
page_of start j = (start % page_size + j) / page_size

abbrev pub offset_of : ℕ → ℕ → ℕ
offset_of start j = if page_of start j == 0 then j else (start % page_size + j) % page_size

-- The backend keeps an address's offset within its page.
abbrev pub IsEven : Mapping → Type 0
IsEven m = m.dma_addr % page_size ≡ m.cpu_addr % page_size

-- The list serves the request from the mapping `m`: it fits the capacity, and every byte of the
-- request is found, through its page's entry, at its own offset in the mapping.
pub record Serves (device start size : ℕ) (out_capacity : ℕ) (out' : ℕ → ℕ) (m : Mapping)
    : Type 0 where
  pub persistent : m.persistent_allocation ≡ true
  pub same_device : m.device ≡ device
  pub inside : (m.cpu_addr ≤ start) × (start + size ≤ m.cpu_addr + m.size)
  pub fits : page_count_for start size ≤ out_capacity
  pub bytes :
      (j : ℕ)
      → j < size
      → (page_of start j < page_count_for start size)
        × (out' (page_of start j) + offset_of start j ≡ m.dma_addr + (start + j - m.cpu_addr))

page_of_lt : (start size j : ℕ) → j < size → page_of start j < page_count_for start size
page_of_lt start size j lt = ground arith

subpages-at :
    (m : Mapping) (start size : ℕ) (out : ℕ → ℕ) (out_capacity i : ℕ) {out' : ℕ → ℕ}
    → subpages m start size out out_capacity ≡ (success, out')
    → i < page_count_for start size
    → out' i ≡ (
        if i == 0
        then dma_start_in m start
        else page_base_of (dma_start_in m start) + i * page_size)
unfolding subpages
subpages-at m start size out out_capacity i {out'} e lt = ground (arith, ap (λ r. r.1 i) e)

subpages-byte :
    (m : Mapping) (start size : ℕ) (out : ℕ → ℕ) (out_capacity j : ℕ) {out' : ℕ → ℕ}
    → m.dma_addr % page_size ≡ m.cpu_addr % page_size
    → m.cpu_addr ≤ start
    → j < size
    → subpages m start size out out_capacity ≡ (success, out')
    → page_of start j < page_count_for start size
    → out' (page_of start j) + offset_of start j ≡ m.dma_addr + (start + j - m.cpu_addr)
subpages-byte m start size out out_capacity j {out'} even le lt e low =
    rw (subpages-at m start size out out_capacity (page_of start j) e low)
      (elim (Bool-cases (page_of start j == 0)) [
        | inl z ↦ rw z (omega arith)
        | inr z ↦ rw z (omega arith)
      ])

subpages-Serves :
    (device start size : ℕ) (out : ℕ → ℕ) (out_capacity : ℕ) (m : Mapping) {out' : ℕ → ℕ}
    → m.dma_addr % page_size ≡ m.cpu_addr % page_size
    → parent_of device start size m ≡ true
    → subpages m start size out out_capacity ≡ (success, out')
    → Serves device start size out_capacity out' m
unfolding parent_of subpages
subpages-Serves device start size out out_capacity m {out'} even p e = record {
  persistent = ground arith;
  same_device = ground arith;
  inside = (ground arith, ground arith);
  fits = ground arith;
  bytes = λ j lt.
      let low = page_of_lt start size j lt in
      (low, subpages-byte m start size out out_capacity j even (ground arith) lt e low);
}

search_parents-Serves :
    (device start size : ℕ) (out : ℕ → ℕ) (out_capacity : ℕ) (ms : List Mapping) {out' : ℕ → ℕ}
    → All IsEven ms
    → search_parents device start size out out_capacity ms ≡ (success, out')
    → Any (Serves device start size out_capacity out') ms
unfolding search_parents
search_parents-Serves device start size out out_capacity [] even e = absurd (ground arith)
search_parents-Serves device start size out out_capacity (m ∷ ms) even e =
    elim (Bool-cases (parent_of device start size m)) [
      | inl p ↦ inl (subpages-Serves device start size out out_capacity m even.0 p (ground arith))
      | inr p ↦
          inr (search_parents-Serves device start size out out_capacity ms even.1 (ground arith))
    ]

-- When the lookup of preallocated pages returns success, some recorded mapping serves the request:
-- it is a persistent mapping of that device that holds the whole request, the list fits the
-- caller's array, and every byte of the request is found through the list's entry for its page at
-- the byte's own offset in the mapping. Mappings are taken to keep the offset within a page.
pub preallocated_pages-Serves :
    (device cpu_addr size : ℕ) (has_out : Bool) (out : ℕ → ℕ) (out_capacity : ℕ) (ms : List Mapping)
    {out' : ℕ → ℕ}
    → All IsEven ms
    → preallocated_pages device cpu_addr size has_out out out_capacity ms ≡ (success, out')
    → Any (Serves device cpu_addr size out_capacity out') ms
unfolding preallocated_pages
preallocated_pages-Serves device cpu_addr size has_out out out_capacity ms even e =
    search_parents-Serves device cpu_addr size out out_capacity ms even (ground arith)
