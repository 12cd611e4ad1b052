-- ===== src/Dma/Map/Lookup.antt =====
-- Lookups in the record of mappings of src/linux_subsystem/dma/dma.c.
use mathlib.Core.Path.{subst}
use kobox.Prelude.{
  All, Any, Bool, Bool-cases, List, [], add64, arith, false, inl, inr, leb, ltb, refl, sym, true,
  u64_mod, ℕ, ◌+◌, ◌-◌, ◌<◌, ◌||◌, ◌↔◌, ◌∷◌, ◌≡◌, ◌≤◌, ◌⊎◌,
}
use kobox.Dma.State.{Mapping}
use kobox.Dma.Map.{dma_cpu_addr, mapping_error}

-- The device address lies in the mapping, whose end does not wrap.
abbrev pub Holds : ℕ → Mapping → Type 0
Holds dma_addr m =
    (m.dma_addr ≤ dma_addr) × (dma_addr < m.dma_addr + m.size) × (m.dma_addr + m.size < u64_mod)

-- No mapping's end wraps round the 64-bit address space.
abbrev pub NoWrap : List Mapping → Type 0
NoWrap = All λ m. (m.dma_addr + m.size < u64_mod) × (m.cpu_addr + m.size < u64_mod)

-- What kb_subsystem_dma_cpu_addr must answer from a mapping.
abbrev pub Translates : ℕ → ℕ × ℕ → Mapping → Type 0
Translates dma_addr r m =
    Holds dma_addr m
    × (r.0 + m.dma_addr ≡ m.cpu_addr + dma_addr)
    × (dma_addr + r.1 ≡ m.dma_addr + m.size)

abbrev skips : ℕ → Mapping → Bool
skips dma_addr m = ltb dma_addr m.dma_addr || leb (add64 m.dma_addr m.size) dma_addr

dma_cpu_addr-skip :
    (dma_addr : ℕ) (m : Mapping) (ms : List Mapping)
    → skips dma_addr m ≡ true
    → dma_cpu_addr dma_addr (m ∷ ms) ≡ dma_cpu_addr dma_addr ms
unfolding dma_cpu_addr
dma_cpu_addr-skip dma_addr m ms e = rw e

dma_cpu_addr-hit :
    (dma_addr : ℕ) (m : Mapping) (ms : List Mapping)
    → skips dma_addr m ≡ false
    → dma_cpu_addr dma_addr (m ∷ ms)
      ≡ (add64 m.cpu_addr (dma_addr - m.dma_addr), m.size - (dma_addr - m.dma_addr))
unfolding dma_cpu_addr
dma_cpu_addr-hit dma_addr m ms e = rw e

-- What an answer to the lookup must be.
abbrev pub Answers : ℕ → List Mapping → ℕ × ℕ → Type 0
Answers dma_addr ms r =
    Any (Translates dma_addr r) ms ⊎ ((¬ Any (Holds dma_addr) ms) × (r ≡ (0, 0)))

Answers-skip :
    (dma_addr : ℕ) (m : Mapping) (ms : List Mapping) (r : ℕ × ℕ)
    → ¬ Holds dma_addr m
    → Answers dma_addr ms r
    → Answers dma_addr (m ∷ ms) r
Answers-skip dma_addr m ms r out (inl t) = inl (inr t)
Answers-skip dma_addr m ms r out (inr n) =
    inr ((λ h. elim h [ inl here ↦ out here | inr there ↦ n.0 there ]), n.1)

-- If the address lies in no mapping, kb_subsystem_dma_cpu_addr answers NULL with 0 bytes
-- available; otherwise it answers from a mapping that holds the address, with the CPU address at
-- the same offset and the bytes from there to the mapping's end. The ends of the mappings are
-- taken not to wrap.
pub dma_cpu_addr_lem :
    (dma_addr : ℕ) (ms : List Mapping) → NoWrap ms → Answers dma_addr ms (dma_cpu_addr dma_addr ms)
unfolding dma_cpu_addr
dma_cpu_addr_lem dma_addr [] w = inr ((λ h. h), refl)
dma_cpu_addr_lem dma_addr (m ∷ ms) w = elim (Bool-cases (skips dma_addr m)) [
  | inl e ↦
      subst (Answers dma_addr (m ∷ ms)) (sym (dma_cpu_addr-skip dma_addr m ms e))
        (Answers-skip dma_addr m ms _ (λ h. ground arith) (dma_cpu_addr_lem dma_addr ms w.1))
  | inr e ↦
      subst (Answers dma_addr (m ∷ ms)) (sym (dma_cpu_addr-hit dma_addr m ms e))
        (inl (inl ((ground arith, ground arith, ground arith), ground arith, ground arith)))
]

-- kb_subsystem_dma_mapping_error reports an error for the address 0 alone: what is recorded makes
-- no difference to its answer.
pub mapping_error_iff :
    (dma_addr : ℕ) (ms : List Mapping) → (mapping_error dma_addr ms ≡ 1) ↔ (dma_addr ≡ 0)
unfolding mapping_error
mapping_error_iff dma_addr ms = (λ h. ground arith, λ h. ground arith)
