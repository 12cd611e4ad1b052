-- ===== src/Dma/Window.antt =====
-- The mapping window of src/linux_subsystem/dma/dma.c.
pub mod Inv
pub mod Pages
use kobox.Prelude.{
  Bool, Status, add64, false, if◌then◌else◌, invalid, is_success, leb, ltb, none, not, some,
  success, true, unsupported, ℕ, ◌%◌, ◌&&◌, ◌*◌, ◌+◌, ◌-◌, ◌/=◌, ◌/◌, ◌==◌, ◌||◌, ◌∷◌,
}
use kobox.Dma.State.{
  Mapping, Window, Call, map_pages, unmap, Dma, Ops, Backends, page_size, max_pages, uintptr_max,
  zero_window, pages_of, has_unmap, device_or_default, remember,
}

unfoldable pub release_mapping : Backends → Dma → Dma
unfolding has_unmap
release_mapping env s =
    if not s.window.mapped then s else if s.window.borrowers /= 0 then s else record s {
      window = record (s.window) {
        mapped = false;
        mapped_start = 0;
        mapped_size = 0;
        mapped_page_count = 0;
        page_dma = λ i. 0;
      };
      calls =
          if has_unmap env s.window.backend
          then unmap s.window.device (s.window.page_dma 0) s.window.mapped_size s.window.direction
            ∷ s.calls
          else s.calls;
    }

-- The ops give what a window needs: dma_map_pages and dma_unmap.
pub can_map_pages : Backends → ℕ → Bool
can_map_pages env backend = elim (env backend) [
  | none ↦ false
  | some ops ↦ elim ops.dma_map_pages [ none ↦ false | some _ ↦ ops.dma_unmap ]
]

-- What is mapped belongs to another backend, device, direction or start.
pub differs : Window → ℕ → ℕ → ℕ → ℕ → Bool
differs w backend device direction start =
    w.mapped
    && (backend /= w.backend
        || device /= w.device
        || direction /= w.direction
        || start /= w.mapped_start)

unfoldable pub begin_common : Backends → ℕ → ℕ → ℕ → ℕ → ℕ → Dma → Status × Dma
unfolding can_map_pages differs
begin_common env backend device cpu_addr size direction s =
    if backend == 0 || cpu_addr == 0 || size == 0 || s.window.active
    then (invalid, s)
    else let dev = device_or_default env backend device s.calls in
      if dev == 0 || not (can_map_pages env backend) || ltb (uintptr_max - size) cpu_addr
      then (invalid, s)
      else let s' =
          if differs s.window backend dev direction cpu_addr then release_mapping env s else s in
        let w = if s'.window.mapped then s'.window else zero_window in
        (
          success,
          record s' {
            window = record w {
              backend = backend;
              device = dev;
              scope_start = cpu_addr;
              scope_size = size;
              direction = direction;
              active = true;
            };
          },
        )

unfoldable pub window_begin : Backends → ℕ → ℕ → ℕ → ℕ → ℕ → Dma → Status × Dma
window_begin env backend device cpu_addr size direction s =
    begin_common env backend device cpu_addr size direction (
      if s.window.mapped && not s.window.active
      then record (release_mapping env s) { window = zero_window }
      else s)

pub cached_window_begin : Backends → ℕ → ℕ → ℕ → ℕ → ℕ → Dma → Status × Dma
cached_window_begin = begin_common

unfoldable pub window_end : Backends → Dma → Dma
window_end env s =
    if not s.window.active || s.window.borrowers /= 0
    then s
    else record (release_mapping env s) { window = zero_window }

pub cached_window_end : Dma → Dma
cached_window_end s =
    if not s.window.active || s.window.borrowers /= 0
    then s
    else record s { window = record (s.window) { active = false; scope_start = 0; scope_size = 0 } }

pub cached_window_discard : Backends → Dma → Dma
cached_window_discard env s =
    if s.window.active || s.window.borrowers /= 0
    then s
    else record (release_mapping env s) { window = zero_window }

-- A request for pages, as the functions below pass it on.
pub record PageRequest : Type 0 where
  pub backend : ℕ
  pub device : ℕ
  pub cpu_addr : ℕ
  pub size : ℕ
  pub direction : ℕ

abbrev pub scope_end : Window → ℕ
scope_end w = add64 w.scope_start w.scope_size

-- The tests before `*out_used = 1`.
unfoldable pub in_scope : Window → PageRequest → Bool
in_scope w r =
    w.active
    && r.backend == w.backend
    && r.device == w.device
    && r.direction == w.direction
    && not (ltb (uintptr_max - r.size) r.cpu_addr)
    && leb w.scope_start r.cpu_addr
    && leb (r.cpu_addr + r.size) (scope_end w)
    && r.cpu_addr % page_size == 0

-- `mapped && request lies within what is mapped`
pub covers : Window → PageRequest → Bool
covers w r =
    w.mapped
    && leb w.mapped_start r.cpu_addr
    && leb (r.cpu_addr + r.size) (add64 w.mapped_start w.mapped_size)

abbrev pub map_size_for : Window → PageRequest → ℕ
map_size_for w r =
    if ltb (scope_end w - r.cpu_addr) (max_pages * page_size)
    then scope_end w - r.cpu_addr
    else max_pages * page_size

-- The backend maps `map_size` bytes from the request's start; it writes into `page_dma`.
pub map_window : Backends → PageRequest → ℕ → Dma → Status × Dma
map_window env r map_size s = elim (env r.backend) [
  | none ↦ (unsupported, s)
  | some ops ↦ elim ops.dma_map_pages [
    | none ↦ (unsupported, s)
    | some call ↦
        let (status, pages) =
          call s.calls r.device r.cpu_addr map_size r.direction s.window.page_dma max_pages in
        let calls' = map_pages r.device r.cpu_addr map_size r.direction ∷ s.calls in
        if is_success status
        then (
          success,
          record s {
            calls = calls';
            window = record (s.window) {
              page_dma = pages;
              mapped_start = r.cpu_addr;
              mapped_size = map_size;
              mapped_page_count = pages_of map_size;
              mapped = true;
            };
          },
        )
        else (status, record s { calls = calls'; window = record (s.window) { page_dma = pages } })
  ]
]

-- What is mapped is replaced by the rest of the scope, from the request's start on.
pub remap : Backends → PageRequest → Dma → Status × Dma
unfolding map_window
remap env r s =
    if s.window.borrowers /= 0
    then (invalid, s)
    else let s' = release_mapping env s in
      let map_size = map_size_for s.window r in
      if ltb map_size r.size then (unsupported, s') else map_window env r map_size s'

abbrev pub first_page : Window → PageRequest → ℕ
first_page w r = (r.cpu_addr - w.mapped_start) / page_size

-- The pages of the request are copied out, and the request is remembered as a borrower.
unfoldable pub borrow : Bool → PageRequest → (ℕ → ℕ) → Dma → Status × (ℕ → ℕ) × Dma
borrow got_node r out s =
    let w = s.window in
    if ltb w.mapped_page_count (first_page w r)
      || ltb (w.mapped_page_count - first_page w r) (pages_of r.size)
    then (invalid, out, s)
    else let out' =
        λ (i : ℕ). if ltb i (pages_of r.size) then w.page_dma (first_page w r + i) else out i in
      let (status, s') =
        remember got_node
          (record {
            cpu_addr = r.cpu_addr;
            dma_addr = out' 0;
            size = r.size;
            device = r.device;
            borrowed_window = true;
            persistent_allocation = false;
          })
          s in
      if is_success status
      then (success, out', record s' { window = record w { borrowers = add64 w.borrowers 1 } })
      else (status, out', s')

-- A request within what is mapped reuses it (`reused = 1`); any other maps anew.
unfoldable pub cover : Backends → PageRequest → Dma → Status × Dma
unfolding covers remap
cover env r s = if covers s.window r then (success, s) else remap env r s

-- dma_window_map_pages: the status, `*out_used`, the caller's array, the new state.
unfoldable pub window_map_pages :
    Backends → Bool → PageRequest → (ℕ → ℕ) → ℕ → Dma → Status × Bool × (ℕ → ℕ) × Dma
window_map_pages env got_node r out out_capacity s =
    if not (in_scope s.window r)
    then (invalid, false, out, s)
    else if pages_of r.size == 0
        || ltb out_capacity (pages_of r.size)
        || ltb max_pages (pages_of r.size)
    then (unsupported, true, out, s)
    else let (status, s') = cover env r s in
      if is_success status
      then (let (st, out', s'') = borrow got_node r out s' in (st, true, out', s''))
      else (status, true, out, s')
