-- ===== src/Dma/Map/Inv.antt =====
-- The mapping calls of src/linux_subsystem/dma/dma.c keep the window invariant.
use kobox.Prelude.{
  Bool, List, Option, Option-cases, [], arith, false, if◌then◌else◌, inl, inr, none, refl, some,
  u64_mod, ℕ, ◌+◌, ◌<◌, ◌∷◌, ◌≡◌, ◌≤◌,
}
use kobox.Dma.State.{Mapping, Call, Dma, Ops, Backends, remember, borrowed_count, device_or_default}
use kobox.Dma.Window.{PageRequest}
use kobox.Dma.Window.Inv.{Inv}
use kobox.Dma.Window.Pages.{window_map_pages-Inv}
use kobox.Dma.Map.{
  take_mapping, take_buffer, call_if, dma_alloc, dma_free, map_with_lifetime, map_pages_direct,
  map_pages_for, map_pages, dma_map_fixed, dma_unmap,
}

-- The number of borrowing entries that were unlinked.
abbrev one_if_borrowed : Option Mapping → ℕ
one_if_borrowed none = 0
one_if_borrowed (some m) = if m.borrowed_window then 1 else 0

pub borrowed_count-take :
    (device dma_addr : ℕ) (ms : List Mapping)
    → borrowed_count ms
      ≡ one_if_borrowed (take_mapping device dma_addr ms).0
        + borrowed_count (take_mapping device dma_addr ms).1
unfolding take_mapping borrowed_count
borrowed_count-take device dma_addr [] = refl
borrowed_count-take device dma_addr (m ∷ ms) =
    ground (arith, borrowed_count-take device dma_addr ms)

pub borrowed_count-take_buffer :
    (cpu_addr dma_handle : ℕ) (ms : List Mapping)
    → borrowed_count (take_buffer cpu_addr dma_handle ms).1 ≤ borrowed_count ms
unfolding take_buffer borrowed_count
borrowed_count-take_buffer cpu_addr dma_handle [] = omega arith
borrowed_count-take_buffer cpu_addr dma_handle (m ∷ ms) =
    ground (arith, borrowed_count-take_buffer cpu_addr dma_handle ms)

-- The history is no part of the invariant.
pub Inv-calls :
    (env : Backends) (s : Dma) (calls : List Call)
    → Inv env s
    → Inv env (record s { calls = calls })
Inv-calls env s calls v = ground arith

pub call_if-Inv :
    (env : Backends) (has : Bool) (c : Call) (s : Dma) → Inv env s → Inv env (call_if has c s)
call_if-Inv env has c s v = ground arith

-- An entry that does not borrow may be added.
pub remember-Inv :
    (env : Backends) (got_node : Bool) (m : Mapping) (s : Dma)
    → m.borrowed_window ≡ false
    → Inv env s
    → Inv env (remember got_node m s).1
unfolding remember borrowed_count
remember-Inv env got_node m s own v = ground arith

-- Entries may be dropped.
pub dropped-Inv :
    (env : Backends) (s : Dma) (ms : List Mapping)
    → borrowed_count ms ≤ borrowed_count s.mappings
    → Inv env s
    → Inv env (record s { mappings = ms })
dropped-Inv env s ms le v = ground arith

pub dma_alloc-Inv :
    (env : Backends) (got_node : Bool) (backend device size : ℕ) (has_handle : Bool) (s : Dma)
    → Inv env s
    → Inv env (dma_alloc env got_node backend device size has_handle s).2
unfolding dma_alloc remember borrowed_count
dma_alloc-Inv env got_node backend device size has_handle s v = ground arith

pub dma_free-Inv :
    (env : Backends) (backend size cpu_addr dma_handle : ℕ) (s : Dma)
    → Inv env s
    → Inv env (dma_free env backend size cpu_addr dma_handle s)
unfolding dma_free
dma_free-Inv env backend size cpu_addr dma_handle s v =
    ground (arith, borrowed_count-take_buffer cpu_addr dma_handle s.mappings)

pub dma_unmap-Inv :
    (env : Backends) (backend device dma_addr size direction : ℕ) (s : Dma)
    → Inv env s
    → Inv env (dma_unmap env backend device dma_addr size direction s)
unfolding dma_unmap
dma_unmap-Inv env backend device dma_addr size direction s v =
    ground (
      arith,
      borrowed_count-take (device_or_default env backend device s.calls) dma_addr s.mappings,
    )

pub map_with_lifetime-Inv :
    (env : Backends) (got_node : Bool) (backend device cpu_addr size direction : ℕ)
    (persistent : Bool) (s : Dma)
    → Inv env s
    → Inv env (map_with_lifetime env got_node backend device cpu_addr size direction persistent s).2
unfolding map_with_lifetime remember borrowed_count
map_with_lifetime-Inv env got_node backend device cpu_addr size direction persistent s v =
    ground arith

pub dma_map_fixed-Inv :
    (env : Backends) (got_node : Bool) (backend device cpu_addr size dma_addr direction : ℕ)
    (s : Dma)
    → Inv env s
    → Inv env (dma_map_fixed env got_node backend device cpu_addr size dma_addr direction s).1
unfolding dma_map_fixed remember borrowed_count
dma_map_fixed-Inv env got_node backend device cpu_addr size dma_addr direction s v = ground arith

map_pages_direct-Inv :
    (env : Backends) (ops : Ops) (got_node : Bool) (r : PageRequest) (out : ℕ → ℕ)
    (out_capacity : ℕ) (s : Dma)
    → Inv env s
    → Inv env (map_pages_direct ops got_node r out out_capacity s).2
unfolding map_pages_direct remember borrowed_count
map_pages_direct-Inv env ops got_node r out out_capacity s v = ground arith

map_pages_for-Inv :
    (env : Backends) (ops : Ops) (got_node : Bool) (r : PageRequest) (out : ℕ → ℕ)
    (out_capacity : ℕ) (s : Dma)
    → Inv env s
    → r.size < u64_mod
    → s.window.borrowers + 1 < u64_mod
    → Inv env (map_pages_for env ops got_node r out out_capacity s).2
unfolding map_pages_for
map_pages_for-Inv env ops got_node r out out_capacity s v word small = ground (
  arith,
  window_map_pages-Inv env got_node r out out_capacity s v word small,
  map_pages_direct-Inv env ops got_node r out out_capacity s v,
)

pub map_pages-Inv :
    (env : Backends) (got_node : Bool) (r : PageRequest) (has_out : Bool) (out : ℕ → ℕ)
    (out_capacity : ℕ) (s : Dma)
    → Inv env s
    → r.size < u64_mod
    → s.window.borrowers + 1 < u64_mod
    → Inv env (map_pages env got_node r has_out out out_capacity s).2
unfolding map_pages
map_pages-Inv env got_node r has_out out out_capacity s v word small =
    elim (Option-cases (env r.backend)) [
      | inl e ↦ ground arith
      | inr (ops, e) ↦
          let q = record r { device = device_or_default env r.backend r.device s.calls } in
          ground (arith, map_pages_for-Inv env ops got_node q out out_capacity s v word small)
    ]
