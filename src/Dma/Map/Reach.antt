-- ===== src/Dma/Map/Reach.antt =====
-- Every order of calls of src/linux_subsystem/dma/dma.c, from the initial state on.
use kobox.Prelude.{Bool, arith, inl, invalid, refl, true, u64_mod, ℕ, ◌+◌, ◌<◌, ◌≡◌}
use kobox.Dma.State.{Dma, Backends, initial, borrowed_count}
use kobox.Dma.Window.{
  PageRequest, window_begin, cached_window_begin, window_end, cached_window_end,
  cached_window_discard,
}
use kobox.Dma.Window.Inv.{
  Inv, cached_window_begin-Inv, pinned, window_begin-Inv, window_end-Inv, cached_window_end-Inv,
  cached_window_discard-Inv,
}
use kobox.Dma.Map.{dma_alloc, dma_free, map_with_lifetime, map_pages, dma_map_fixed, dma_unmap}
use kobox.Dma.Map.Inv.{
  dma_alloc-Inv, dma_free-Inv, map_with_lifetime-Inv, map_pages-Inv, dma_map_fixed-Inv,
  dma_unmap-Inv,
}

-- One call of the file's interface. A page request has a size of 64 bits, and the counter of
-- borrowers, one for each live entry in memory, is not at its end.
pub data Step (env : Backends) (s : Dma) : Dma → Type 0 where
  begin :
      (backend device cpu_addr size direction : ℕ)
      → Step env s (window_begin env backend device cpu_addr size direction s).1
  begin_cached :
      (backend device cpu_addr size direction : ℕ)
      → Step env s (cached_window_begin env backend device cpu_addr size direction s).1
  end : Step env s (window_end env s)
  end_cached : Step env s (cached_window_end s)
  discard : Step env s (cached_window_discard env s)
  allocate :
      (got_node : Bool) (backend device size : ℕ) (has_handle : Bool)
      → Step env s (dma_alloc env got_node backend device size has_handle s).2
  release :
      (backend size cpu_addr dma_handle : ℕ)
      → Step env s (dma_free env backend size cpu_addr dma_handle s)
  map_one :
      (got_node : Bool) (backend device cpu_addr size direction : ℕ) (persistent : Bool)
      → Step env s
          (map_with_lifetime env got_node backend device cpu_addr size direction persistent s).2
  map_many :
      (got_node : Bool) (r : PageRequest) (has_out : Bool) (out : ℕ → ℕ) (out_capacity : ℕ)
      → r.size < u64_mod
      → s.window.borrowers + 1 < u64_mod
      → Step env s (map_pages env got_node r has_out out out_capacity s).2
  map_at :
      (got_node : Bool) (backend device cpu_addr size dma_addr direction : ℕ)
      → Step env s (dma_map_fixed env got_node backend device cpu_addr size dma_addr direction s).1
  unmap_one :
      (backend device dma_addr size direction : ℕ)
      → Step env s (dma_unmap env backend device dma_addr size direction s)

pub data Reach (env : Backends) : Dma → Type 0 where
  start : Reach env initial
  next : {s t : Dma} → Reach env s → Step env s t → Reach env t

pub Step-Inv : {env : Backends} {s t : Dma} → Step env s t → Inv env s → Inv env t
Step-Inv {env} {s} (begin backend device cpu_addr size direction) v =
    window_begin-Inv env backend device cpu_addr size direction s v
Step-Inv {env} {s} (begin_cached backend device cpu_addr size direction) v =
    cached_window_begin-Inv env backend device cpu_addr size direction s v
Step-Inv {env} {s} end v = window_end-Inv env s v
Step-Inv {env} {s} end_cached v = cached_window_end-Inv env s v
Step-Inv {env} {s} discard v = cached_window_discard-Inv env s v
Step-Inv {env} {s} (allocate g b d n h) v = dma_alloc-Inv env g b d n h s v
Step-Inv {env} {s} (release b n c h) v = dma_free-Inv env b n c h s v
Step-Inv {env} {s} (map_one g b d c n dir p) v = map_with_lifetime-Inv env g b d c n dir p s v
Step-Inv {env} {s} (map_many g r h out cap w f) v = map_pages-Inv env g r h out cap s v w f
Step-Inv {env} {s} (map_at g b d c n a dir) v = dma_map_fixed-Inv env g b d c n a dir s v
Step-Inv {env} {s} (unmap_one b d a n dir) v = dma_unmap-Inv env b d a n dir s v

initial-Inv : (env : Backends) → Inv env initial
unfolding borrowed_count
initial-Inv env = record {
  lent = omega arith;
  while_active = inl (refl, refl);
  while_mapped = inl (refl, refl);
}

-- In every reachable state the window invariant holds: live borrowing mappings are all counted,
-- only an active and mapped window has borrowers, and what is mapped is page aligned, at most 512
-- pages, counted right, and its backend can undo it.
pub Reach-Inv : {env : Backends} {s : Dma} → Reach env s → Inv env s
Reach-Inv {env} start = initial-Inv env
Reach-Inv (next r st) = Step-Inv st (Reach-Inv r)

-- In every reachable state with a live mapping that borrows from the window, the window is active
-- and mapped, a new window is refused, and none of the calls that end or discard a window changes
-- anything: the pages that were lent stay mapped.
pub Reach-pinned :
    {env : Backends} {s : Dma} (backend device cpu_addr size direction : ℕ)
    → Reach env s
    → 0 < borrowed_count s.mappings
    → (s.window.active ≡ true)
      × (s.window.mapped ≡ true)
      × (window_end env s ≡ s)
      × (cached_window_end s ≡ s)
      × (cached_window_discard env s ≡ s)
      × (window_begin env backend device cpu_addr size direction s ≡ (invalid, s))
      × (cached_window_begin env backend device cpu_addr size direction s ≡ (invalid, s))
Reach-pinned {env} {s} backend device cpu_addr size direction r some_lent =
    pinned env backend device cpu_addr size direction s (Reach-Inv r) some_lent
