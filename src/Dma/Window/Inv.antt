-- ===== src/Dma/Window/Inv.antt =====
-- The window invariant of src/linux_subsystem/dma/dma.c, and the window operations that keep it.
use kobox.Prelude.{
  add64, arith, false, invalid, is_success, true, u64_mod, ℕ, ◌%◌, ◌*◌, ◌+◌, ◌<◌, ◌≡◌, ◌≤◌, ◌⊎◌,
}
use kobox.Dma.State.{
  Window, Dma, Backends, page_size, max_pages, pages_of, has_unmap, zero_window, borrowed_count,
}
use kobox.Dma.Window.{
  PageRequest, release_mapping, can_map_pages, begin_common, window_begin, cached_window_begin,
  window_end, cached_window_end, cached_window_discard, map_size_for, in_scope, map_window, remap,
}

-- What is mapped starts at a page, does not wrap, has at most 512 pages, all counted, and its
-- backend can undo it.
abbrev pub MappedOk : Backends → Window → Type 0
MappedOk env w =
    (w.mapped_page_count ≡ pages_of w.mapped_size)
    × (w.mapped_start % page_size ≡ 0)
    × (w.mapped_start + w.mapped_size < u64_mod)
    × (w.mapped_size ≤ max_pages * page_size)
    × (has_unmap env w.backend ≡ true)

abbrev pub ActiveOk : Backends → Window → Type 0
ActiveOk env w = (w.scope_start + w.scope_size < u64_mod) × (has_unmap env w.backend ≡ true)

-- Every live mapping that borrows from the window is counted in `borrowers`, and only a window
-- that is active and mapped has borrowers.
pub record Inv (env : Backends) (s : Dma) : Type 0 where
  pub lent : borrowed_count s.mappings ≤ s.window.borrowers
  pub while_active :
      ((s.window.active ≡ false) × (s.window.borrowers ≡ 0))
      ⊎ ((s.window.active ≡ true) × ActiveOk env s.window)
  pub while_mapped :
      ((s.window.mapped ≡ false) × (s.window.borrowers ≡ 0))
      ⊎ ((s.window.mapped ≡ true) × MappedOk env s.window)

pub can_map_pages-has_unmap :
    (env : Backends) (backend : ℕ) → can_map_pages env backend ≡ true → has_unmap env backend ≡ true
unfolding can_map_pages has_unmap
can_map_pages-has_unmap env backend h = ground arith

pub release_mapping-Inv : (env : Backends) (s : Dma) → Inv env s → Inv env (release_mapping env s)
unfolding release_mapping
release_mapping-Inv env s v = ground arith

-- A window without borrowers is unmapped by the release.
pub release_mapping-mapped :
    (env : Backends) (s : Dma)
    → s.window.borrowers ≡ 0
    → (release_mapping env s).window.mapped ≡ false
unfolding release_mapping
release_mapping-mapped env s h = ground arith

pub release_mapping-kept :
    (env : Backends) (s : Dma)
    → ((release_mapping env s).mappings ≡ s.mappings)
      × ((release_mapping env s).window.borrowers ≡ s.window.borrowers)
      × ((release_mapping env s).window.active ≡ s.window.active)
unfolding release_mapping
release_mapping-kept env s = (ground arith, ground arith, ground arith)

-- A state with no borrower may have any window that is neither active nor mapped.
reset-Inv :
    (env : Backends) (s : Dma)
    → Inv env s
    → s.window.borrowers ≡ 0
    → Inv env (record (release_mapping env s) { window = zero_window })
reset-Inv env s v none_left = ground (arith, release_mapping-kept env s)

pub begin_common-Inv :
    (env : Backends) (backend device cpu_addr size direction : ℕ) (s : Dma)
    → Inv env s
    → Inv env (begin_common env backend device cpu_addr size direction s).1
unfolding begin_common
begin_common-Inv env backend device cpu_addr size direction s v = ground (
  arith,
  release_mapping-Inv env s v,
  release_mapping-mapped env s,
  release_mapping-kept env s,
  can_map_pages-has_unmap env backend,
)

pub window_begin-Inv :
    (env : Backends) (backend device cpu_addr size direction : ℕ) (s : Dma)
    → Inv env s
    → Inv env (window_begin env backend device cpu_addr size direction s).1
unfolding window_begin
window_begin-Inv env backend device cpu_addr size direction s v =
    begin_common-Inv env backend device cpu_addr size direction _
      (ground (arith, reset-Inv env s v))

pub window_end-Inv : (env : Backends) (s : Dma) → Inv env s → Inv env (window_end env s)
unfolding window_end
window_end-Inv env s v = ground (arith, reset-Inv env s v)

pub cached_window_end-Inv : (env : Backends) (s : Dma) → Inv env s → Inv env (cached_window_end s)
unfolding cached_window_end
cached_window_end-Inv env s v = ground arith

pub cached_window_discard-Inv :
    (env : Backends) (s : Dma) → Inv env s → Inv env (cached_window_discard env s)
unfolding cached_window_discard
cached_window_discard-Inv env s v = ground (arith, reset-Inv env s v)

-- What the tests before `*out_used = 1` establish.
abbrev pub InScope : Window → PageRequest → Type 0
InScope w r =
    (w.active ≡ true)
    × (r.backend ≡ w.backend)
    × (r.device ≡ w.device)
    × (r.cpu_addr + r.size < u64_mod)
    × (w.scope_start ≤ r.cpu_addr)
    × (r.cpu_addr + r.size ≤ add64 w.scope_start w.scope_size)
    × (r.cpu_addr % page_size ≡ 0)

pub in_scope-InScope :
    (w : Window) (r : PageRequest) → r.size < u64_mod → in_scope w r ≡ true → InScope w r
unfolding in_scope
in_scope-InScope w r word h = (
  ground arith,
  ground arith,
  ground arith,
  ground arith,
  ground arith,
  ground arith,
  ground arith,
)

map_window-Inv :
    (env : Backends) (r : PageRequest) (map_size : ℕ) (s : Dma)
    → Inv env s
    → s.window.mapped ≡ false
    → s.window.active ≡ true
    → r.backend ≡ s.window.backend
    → r.cpu_addr % page_size ≡ 0
    → r.cpu_addr + map_size < u64_mod
    → map_size ≤ max_pages * page_size
    → Inv env (map_window env r map_size s).1
unfolding map_window
map_window-Inv env r map_size s v a b c d e f = ground arith

-- After a successful call of the backend the whole map is recorded.
map_window-success :
    (env : Backends) (r : PageRequest) (map_size : ℕ) (s : Dma)
    → is_success (map_window env r map_size s).0 ≡ true
    → let w = (map_window env r map_size s).1.window in
      (w.mapped ≡ true) × (w.mapped_start ≡ r.cpu_addr) × (w.mapped_size ≡ map_size)
unfolding map_window
map_window-success env r map_size s h = (ground arith, ground arith, ground arith)

release_mapping-scope :
    (env : Backends) (s : Dma)
    → ((release_mapping env s).window.backend ≡ s.window.backend)
      × ((release_mapping env s).window.scope_start ≡ s.window.scope_start)
      × ((release_mapping env s).window.scope_size ≡ s.window.scope_size)
unfolding release_mapping
release_mapping-scope env s = (ground arith, ground arith, ground arith)

pub remap-Inv :
    (env : Backends) (r : PageRequest) (s : Dma)
    → Inv env s
    → InScope s.window r
    → Inv env (remap env r s).1
unfolding remap
remap-Inv env r s v h = ground (
  arith,
  release_mapping-Inv env s v,
  release_mapping-mapped env s,
  release_mapping-kept env s,
  release_mapping-scope env s,
  map_window-Inv env r (map_size_for s.window r) (release_mapping env s),
)

-- The window covers the request.
abbrev pub Covers : Window → PageRequest → Type 0
Covers w r =
    (w.mapped ≡ true)
    × (w.mapped_start ≤ r.cpu_addr)
    × (r.cpu_addr + r.size ≤ w.mapped_start + w.mapped_size)

pub remap-Covers :
    (env : Backends) (r : PageRequest) (s : Dma)
    → is_success (remap env r s).0 ≡ true
    → Covers (remap env r s).1.window r
unfolding remap
remap-Covers env r s h =
    ground (arith, map_window-success env r (map_size_for s.window r) (release_mapping env s))

pub cached_window_begin-Inv :
    (env : Backends) (backend device cpu_addr size direction : ℕ) (s : Dma)
    → Inv env s
    → Inv env (cached_window_begin env backend device cpu_addr size direction s).1
unfolding cached_window_begin
cached_window_begin-Inv = begin_common-Inv

-- Under the invariant a live borrowing mapping keeps the window as it is.
pub pinned :
    (env : Backends) (backend device cpu_addr size direction : ℕ) (s : Dma)
    → Inv env s
    → 0 < borrowed_count s.mappings
    → (s.window.active ≡ true)
      × (s.window.mapped ≡ true)
      × (window_end env s ≡ s)
      × (cached_window_end s ≡ s)
      × (cached_window_discard env s ≡ s)
      × (window_begin env backend device cpu_addr size direction s ≡ (invalid, s))
      × (cached_window_begin env backend device cpu_addr size direction s ≡ (invalid, s))
unfolding window_end cached_window_end cached_window_discard window_begin cached_window_begin
    begin_common
pinned env backend device cpu_addr size direction s v some_lent = (
  ground arith,
  ground arith,
  ground arith,
  ground arith,
  ground arith,
  ground arith,
  ground arith,
)
