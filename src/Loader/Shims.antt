-- ===== src/Loader/Shims.antt =====
-- The table of the kernel symbols that kobox provides itself, of src/loader/module_loader.c: a cache
-- of the providers' symbols in order, and an open-addressed hash index that holds, for the first
-- symbol of each name, its position in the cache plus one. A symbol's name is none for NULL.
pub mod First
pub mod Probe
pub mod Table
pub mod Insert
pub mod Built
pub mod Lookup
mod Tests
use Prim.Native.Nat.{bit_xor}
use kobox.Prelude.{
  Bool, List, Option, [], false, get_elem?, get_or, if◌then◌else◌, leb, length, mul64, none,
  replicate, same_text, set, some, suc, true, zero, ℕ, ◌%◌, ◌++◌, ◌+◌, ◌-◌, ◌==◌, ◌^◌, ◌∷◌,
}

-- kb_linux_symbol_t
pub record LinuxSymbol : Type 0 where
  pub name : Option (List ℕ)
  pub address : ℕ

-- KB_LOCAL_SHIM_STUB_COUNT
abbrev pub shim_stub_count : ℕ
shim_stub_count = 4096

-- KB_LOCAL_SHIM_SYMBOL_HASH_SIZE
abbrev pub shim_hash_size : ℕ
shim_hash_size = 16384

-- The static variables; shim_symbol_cache_count is the length of `cache`.
pub record Shims : Type 0 where
  pub cache : List LinuxSymbol
  pub hash_index : List ℕ
  pub ready : Bool
  pub overflow : Bool

abbrev pub no_shims : Shims
no_shims = record {
  cache = [];
  hash_index = replicate shim_hash_size 0;
  ready = false;
  overflow = false;
}

pub name_hash_from : ℕ → List ℕ → ℕ
name_hash_from hash [] = hash
name_hash_from hash (c ∷ cs) = name_hash_from (mul64 (bit_xor hash c) 1099511628211) cs

-- FNV-1a
pub shim_symbol_name_hash : List ℕ → ℕ
unfolding name_hash_from
shim_symbol_name_hash name = name_hash_from 1469598103934665603 name

abbrev pub slot_of : List ℕ → ℕ
slot_of name = shim_symbol_name_hash name % shim_hash_size

abbrev pub next_slot : ℕ → ℕ
next_slot slot = (slot + 1) % shim_hash_size

pub has_name : List ℕ → LinuxSymbol → Bool
has_name name s = elim s.name [ none ↦ false | some n ↦ same_text n name ]

-- `strcmp` with the name of the cached symbol that a nonzero slot refers to.
pub slot_matches : List LinuxSymbol → ℕ → List ℕ → Bool
unfolding has_name
slot_matches cache stored name = elim (get_elem? cache (stored - 1)) [
  | none ↦ false
  | some s ↦ has_name name s
]

-- The loop of the insertion, with the probes that are left.
pub insert_probe : List LinuxSymbol → List ℕ → ℕ → ℕ → ℕ → List ℕ → List ℕ
insert_probe cache name index zero slot hs = hs
insert_probe cache name index (suc n) slot hs =
    let stored = get_or hs slot 0 in
    let rest = insert_probe cache name index n (next_slot slot) hs in
    if stored == 0
    then set hs slot ((index + 1) % 2 ^ 16)
    else if slot_matches cache stored name
    then hs
    else rest

pub hash_insert_first : LinuxSymbol → ℕ → Shims → Shims
hash_insert_first symbol index t = elim symbol.name [
  | none ↦ t
  | some name ↦ if leb (2 ^ 16 - 1) index then t else record t {
    hash_index = insert_probe t.cache name index shim_hash_size (slot_of name) t.hash_index;
  }
]

pub append_symbols : List LinuxSymbol → Shims → Shims
unfolding hash_insert_first
append_symbols [] t = t
append_symbols (s ∷ ss) t =
    let t' : Shims = record t { cache = t.cache ++ s ∷ [] } in
    let rest = append_symbols ss (hash_insert_first s (length t.cache) t') in
    if leb shim_stub_count (length t.cache) then record t { overflow = true } else rest

-- The provider's array is none for NULL.
pub append_provider : Option (List LinuxSymbol) → Shims → Shims
unfolding append_symbols
append_provider none t = t
append_provider (some symbols) t = append_symbols symbols t

pub append_providers : List (Option (List LinuxSymbol)) → Shims → Shims
unfolding append_provider
append_providers [] t = t
append_providers (p ∷ ps) t = append_providers ps (append_provider p t)

-- The loop of the lookup, with the probes that are left.
pub find_probe : List LinuxSymbol → List ℕ → ℕ → ℕ → List ℕ → Option ℕ
find_probe cache name zero slot hs = none
find_probe cache name (suc n) slot hs =
    let stored = get_or hs slot 0 in
    let rest = find_probe cache name n (next_slot slot) hs in
    if stored == 0 then none else if slot_matches cache stored name then some (stored - 1) else rest

-- `providers` are the arrays of the subsystems' symbols, in the order of the calls.
module _ (providers : List (Option (List LinuxSymbol))) where
  pub shim_table_init : Shims → Shims
  unfolding append_providers
  shim_table_init t = if t.ready then t else record (append_providers providers t) { ready = true }

  -- A lookup fills the table first; the result is none where the code returns 0.
  pub shim_find_index : Shims → List ℕ → Option ℕ × Shims
  shim_find_index t name =
      let t' = shim_table_init t in
      (find_probe t'.cache name shim_hash_size (slot_of name) t'.hash_index, t')

  pub shim_table_count : Shims → ℕ × Shims
  shim_table_count t =
      let t' = shim_table_init t in
      (if t'.overflow then shim_stub_count + 1 else length t'.cache, t')

  pub shim_table_at : Shims → ℕ → Option LinuxSymbol × Shims
  shim_table_at t index = let t' = shim_table_init t in (get_elem? t'.cache index, t')

  -- 0 is NULL.
  pub shim_find_address : Shims → List ℕ → ℕ × Shims
  unfolding shim_find_index shim_table_at
  shim_find_address t name =
      let (found, t₁) = shim_find_index t name in
      elim found [
        | none ↦ (0, t₁)
        | some index ↦
            let (symbol, t₂) = shim_table_at t₁ index in
            elim symbol [ none ↦ (0, t₂) | some s ↦ (s.address, t₂) ]
      ]
