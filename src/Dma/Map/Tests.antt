-- ===== src/Dma/Map/Tests.antt =====
-- DMA at concrete states: one backend whose page maps give consecutive pages from 0x100000 on.
use kobox.Prelude.{
  Any, [], arith, false, none, refl, some, success, true, ℕ, ◌*◌, ◌+◌, ◌↔◌, ◌∷◌, ◌≡◌,
}
use kobox.Dma.State.{Mapping, Dma, Ops, Backends, initial, remember, borrowed_count}
use kobox.Dma.Window.{
  PageRequest, window_begin, begin_common, window_end, window_map_pages, in_scope, cover,
  release_mapping, borrow,
}
use kobox.Dma.Window.Pages.{Served, window_map_pages-Served}
use kobox.Dma.Window.Inv.{Inv}
use kobox.Dma.Map.{map_pages, map_pages_for, mapping_error, dma_cpu_addr}
use kobox.Dma.Map.Reach.{Reach, start, next, begin, map_many, Reach-Inv, Reach-pinned}
use kobox.Dma.Map.Lookup.{Answers, dma_cpu_addr_lem, mapping_error_iff}
use kobox.Dma.Map.Prealloc.{Serves, preallocated_pages, preallocated_pages-Serves}

abbrev ops : Ops
ops = record {
  device_at = none;
  dma_alloc = none;
  dma_free = true;
  dma_map = none;
  dma_map_pages =
      some λ calls device cpu_addr size direction old capacity. (success, λ i. 0x100000 + i * 4096);
  dma_map_fixed = none;
  dma_unmap = true;
}

abbrev env : Backends
env b = some ops

abbrev two_pages : PageRequest
two_pages = record { backend = 1; device = 2; cpu_addr = 0x12000; size = 0x1800; direction = 3 }

abbrev blank : ℕ → ℕ
blank i = 0

abbrev begun : Dma
begun = (window_begin env 1 2 0x10000 0x8000 3 initial).1

abbrev lent : Dma
lent = (map_pages env true two_pages true blank 8 begun).2

begun-borrowers : begun.window.borrowers ≡ 0
unfolding window_begin begin_common
begun-borrowers = refl

lent-Reach : Reach env lent
lent-Reach =
    next (next start (begin 1 2 0x10000 0x8000 3))
      (map_many true two_pages true blank 8 (omega arith) (omega (arith, begun-borrowers)))

Reach-Inv_example : Inv env lent
Reach-Inv_example = Reach-Inv lent-Reach

Reach-pinned_example : window_end env lent ≡ lent
unfolding window_begin begin_common window_map_pages in_scope cover borrow release_mapping remember
    borrowed_count map_pages map_pages_for
Reach-pinned_example = (Reach-pinned 1 2 0x10000 0x8000 3 lent-Reach (omega arith)).2

window_map_pages-Served_example :
    Served two_pages blank
      (window_map_pages env true two_pages blank 8 begun).2
      begun
      (window_map_pages env true two_pages blank 8 begun).3
unfolding window_begin begin_common window_map_pages in_scope cover borrow release_mapping remember
window_map_pages-Served_example =
    window_map_pages-Served env true two_pages blank 8 begun
      (Reach-Inv (next start (begin 1 2 0x10000 0x8000 3))) (omega arith)
      (omega (arith, begun-borrowers)) refl

abbrev buffer : Mapping
buffer = record {
  cpu_addr = 0x20000;
  dma_addr = 0x90000;
  size = 0x3000;
  device = 2;
  borrowed_window = false;
  persistent_allocation = true;
}

dma_cpu_addr_lem_example : Answers 0x90010 (buffer ∷ []) (0x20010, 0x2ff0)
unfolding dma_cpu_addr
dma_cpu_addr_lem_example = dma_cpu_addr_lem 0x90010 (buffer ∷ []) (omega arith)

mapping_error_iff_example : (mapping_error 5 (buffer ∷ []) ≡ 1) ↔ (◌≡◌ {A = ℕ} 5 0)
mapping_error_iff_example = mapping_error_iff 5 (buffer ∷ [])

preallocated_pages-Serves_example :
    Any
      (Serves 2 0x20800 0x1000 4 (preallocated_pages 2 0x20800 0x1000 true blank 4 (buffer ∷ [])).1)
      (buffer ∷ [])
unfolding preallocated_pages
preallocated_pages-Serves_example =
    preallocated_pages-Serves 2 0x20800 0x1000 true blank 4 (buffer ∷ []) (refl, tt) refl
