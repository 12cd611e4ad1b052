-- ===== src/Dma/Window/Pages.antt =====
-- Borrowing pages from the window of src/linux_subsystem/dma/dma.c (dma_window_map_pages).
use kobox.Prelude.{
  Bool, Bool-cases, add64, arith, false, if◌then◌else◌, inl, inr, is_success, ltb, success, true,
  u64_mod, ℕ, ◌%◌, ◌*◌, ◌+◌, ◌<◌, ◌∷◌, ◌≡◌, ◌≤◌,
}
use kobox.Dma.State.{Mapping, Window, Dma, Backends, page_size, pages_of, remember, borrowed_count}
use kobox.Dma.Window.{
  PageRequest, first_page, in_scope, covers, remap, cover, borrow, window_map_pages,
  release_mapping, map_window, map_size_for,
}
use kobox.Dma.Window.Inv.{
  Inv, MappedOk, InScope, Covers, in_scope-InScope, remap-Inv, remap-Covers, release_mapping-kept,
}

-- A page-aligned request inside what is mapped lies within the recorded pages.
pub pages_within :
    (env : Backends) (w : Window) (r : PageRequest)
    → MappedOk env w
    → Covers w r
    → r.cpu_addr % page_size ≡ 0
    → (first_page w r + pages_of r.size ≤ w.mapped_page_count)
      × (w.mapped_start + first_page w r * page_size ≡ r.cpu_addr)
pages_within env w r ok c aligned = (ground arith, ground arith)

abbrev pub borrower : PageRequest → ℕ → Mapping
borrower r dma_addr = record {
  cpu_addr = r.cpu_addr;
  dma_addr = dma_addr;
  size = r.size;
  device = r.device;
  borrowed_window = true;
  persistent_allocation = false;
}

-- The caller's array after a successful borrow.
abbrev pub copied : Window → PageRequest → (ℕ → ℕ) → ℕ → ℕ
copied w r out i = if ltb i (pages_of r.size) then w.page_dma (first_page w r + i) else out i

pub borrow_done :
    (got_node : Bool) (r : PageRequest) (out : ℕ → ℕ) (s : Dma)
    → is_success (borrow got_node r out s).0 ≡ true
    → ((borrow got_node r out s).1 ≡ copied s.window r out)
      × ((borrow got_node r out s).2.mappings ≡ borrower r (copied s.window r out 0) ∷ s.mappings)
      × ((borrow got_node r out s).2.window
          ≡ record (s.window) { borrowers = add64 s.window.borrowers 1 })
      × ((borrow got_node r out s).2.calls ≡ s.calls)
unfolding borrow remember
borrow_done got_node r out s h = (ground arith, ground arith, ground arith, ground arith)

pub borrow-Inv :
    (env : Backends) (got_node : Bool) (r : PageRequest) (out : ℕ → ℕ) (s : Dma)
    → Inv env s
    → s.window.active ≡ true
    → s.window.mapped ≡ true
    → s.window.borrowers + 1 < u64_mod
    → Inv env (borrow got_node r out s).2
unfolding borrow remember borrowed_count
borrow-Inv env got_node r out s v a m small = ground arith

map_window-kept :
    (env : Backends) (r : PageRequest) (map_size : ℕ) (s : Dma)
    → ((map_window env r map_size s).1.mappings ≡ s.mappings)
      × ((map_window env r map_size s).1.window.borrowers ≡ s.window.borrowers)
      × ((map_window env r map_size s).1.window.active ≡ s.window.active)
unfolding map_window
map_window-kept env r map_size s = (ground arith, ground arith, ground arith)

pub remap-kept :
    (env : Backends) (r : PageRequest) (s : Dma)
    → ((remap env r s).1.mappings ≡ s.mappings)
      × ((remap env r s).1.window.borrowers ≡ s.window.borrowers)
      × ((remap env r s).1.window.active ≡ s.window.active)
unfolding remap
remap-kept env r s = ground (
  arith,
  release_mapping-kept env s,
  map_window-kept env r (map_size_for s.window r) (release_mapping env s),
)

mapped_ok : (env : Backends) (s : Dma) → Inv env s → s.window.mapped ≡ true → MappedOk env s.window
mapped_ok env s v m = elim v.while_mapped [ inl (off, _) ↦ absurd (cc) | inr (_, ok) ↦ ok ]

-- What holds once the window covers a request.
record Ready (env : Backends) (r : PageRequest) (s t : Dma) : Type 0 where
  inv : Inv env t
  mappings_kept : t.mappings ≡ s.mappings
  borrowers_kept : t.window.borrowers ≡ s.window.borrowers
  active_kept : t.window.active ≡ s.window.active

cover-Ready :
    (env : Backends) (r : PageRequest) (s : Dma)
    → Inv env s
    → InScope s.window r
    → Ready env r s (cover env r s).1
unfolding cover
cover-Ready env r s v h = record {
  inv = ground (arith, remap-Inv env r s v h);
  mappings_kept = ground (arith, remap-kept env r s);
  borrowers_kept = ground (arith, remap-kept env r s);
  active_kept = ground (arith, remap-kept env r s);
}

cover-Covers :
    (env : Backends) (r : PageRequest) (s : Dma)
    → Inv env s
    → is_success (cover env r s).0 ≡ true
    → Covers (cover env r s).1.window r
unfolding cover
cover-Covers env r s v h = elim (Bool-cases (covers s.window r)) [
  | inl e ↦ ground arith
  | inr e ↦ ground (arith, remap-Covers env r s)
]

-- Asking the window for pages keeps the invariant, whatever the outcome.
pub window_map_pages-Inv :
    (env : Backends) (got_node : Bool) (r : PageRequest) (out : ℕ → ℕ) (out_capacity : ℕ) (s : Dma)
    → Inv env s
    → r.size < u64_mod
    → s.window.borrowers + 1 < u64_mod
    → Inv env (window_map_pages env got_node r out out_capacity s).3
unfolding window_map_pages
window_map_pages-Inv env got_node r out out_capacity s v word small =
    elim (Bool-cases (in_scope s.window r)) [
      | inr e ↦ ground arith
      | inl e ↦
          let h = in_scope-InScope s.window r word e in
          let ready = cover-Ready env r s v h in
          ground (
            arith,
            ready.inv,
            ready.borrowers_kept,
            ready.active_kept,
            cover-Covers env r s v,
            borrow-Inv env got_node r out (cover env r s).1 ready.inv,
          )
    ]

-- What a request that the window served has: its pages are those of the window from the
-- request's first page on, all of them mapped by the backend, and it is a new borrower.
pub record Served (r : PageRequest) (out out' : ℕ → ℕ) (s t : Dma) : Type 0 where
  pub covered : Covers t.window r
  pub offset : t.window.mapped_start + first_page t.window r * page_size ≡ r.cpu_addr
  pub within : first_page t.window r + pages_of r.size ≤ t.window.mapped_page_count
  pub pages : out' ≡ copied t.window r out
  pub entry : t.mappings ≡ borrower r (out' 0) ∷ s.mappings
  pub counted : t.window.borrowers ≡ s.window.borrowers + 1

-- A request that the window serves successfully gets, for each of its pages, the entry of
-- `page_dma` for that page, all inside the part that the backend mapped; it is remembered as a
-- borrower and counted once.
pub window_map_pages-Served :
    (env : Backends) (got_node : Bool) (r : PageRequest) (out : ℕ → ℕ) (out_capacity : ℕ) (s : Dma)
    {out' : ℕ → ℕ} {t : Dma}
    → Inv env s
    → r.size < u64_mod
    → s.window.borrowers + 1 < u64_mod
    → window_map_pages env got_node r out out_capacity s ≡ (success, true, out', t)
    → Served r out out' s t
unfolding window_map_pages
window_map_pages-Served env got_node r out out_capacity s {out'} {t} v word small e =
    let h = in_scope-InScope s.window r word (ground arith) in
    let ready = cover-Ready env r s v h in
    let c = (cover env r s).1 in
    let covered = cover-Covers env r s v (ground arith) in
    let lent = borrow_done got_node r out c (ground arith) in
    let within = pages_within env c.window r (mapped_ok env c ready.inv covered.0) covered h.6 in
    record {
      covered = ground (arith, covered, lent);
      offset = ground (arith, within, lent);
      within = ground (arith, within, lent);
      pages = ground (arith, lent);
      entry = ground (arith, lent, ready.mappings_kept);
      counted = ground (arith, lent, ready.borrowers_kept);
    }
