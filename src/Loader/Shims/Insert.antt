-- ===== src/Loader/Shims/Insert.antt =====
-- The insertion of a symbol into the hash index.
use kobox.Prelude.{
  List, Option-cases, [], arith, false, inl, inr, leb, length, none, some, true, ℕ, ◌%◌, ◌++◌, ◌+◌,
  ◌-◌, ◌<◌, ◌^◌, ◌∙◌, ◌∷◌, ◌≡◌, ◌≢◌,
}
use kobox.Loader.Shims.{
  LinuxSymbol, Shims, shim_hash_size, shim_stub_count, slot_of, has_name, insert_probe,
  hash_insert_first,
}
use kobox.Loader.Shims.First.{first_index}
use kobox.Loader.Shims.Probe.{
  free_slot-some, insert_probe-found, insert_probe-new, find_probe-append,
}
use kobox.Loader.Shims.Table.{
  find, IsTable, has_name_eq, nameless_has_no_name, IsTable-skip, IsTable-taken,
}

-- The insertion of the symbol that was appended last.
module _ (c : List LinuxSymbol) (s : LinuxSymbol) (t : Shims) where
  insert_named-IsTable :
      (n₀ : List ℕ)
      → s.name ≡ some n₀
      → length c < shim_stub_count
      → IsTable c t.hash_index
      → IsTable
          (c ++ s ∷ [])
          (insert_probe (c ++ s ∷ []) n₀ (length c) shim_hash_size (slot_of n₀) t.hash_index)
  insert_named-IsTable n₀ e b h =
      let start : find (c ++ s ∷ []) t.hash_index n₀ ≡ first_index c n₀ =
        find_probe-append c n₀ s shim_hash_size (slot_of n₀) t.hash_index h.stored
        ∙ h.complete n₀ in
      elim (Option-cases (first_index c n₀)) [
        | inr (i, f) ↦
            let known : (name : List ℕ) → has_name name s ≡ true → first_index c name ≢ none =
              λ name y n.
                let at : n₀ ≡ name = has_name_eq name n₀ s e y in
                let f' : first_index c name ≡ some i = rw at at f in cc in
            rw
              (insert_probe-found (c ++ s ∷ []) n₀ (length c) shim_hash_size (slot_of n₀)
                t.hash_index (start ∙ f))
              (IsTable-skip c s t.hash_index h known)
        | inl f ↦
            let (q, free) =
              free_slot-some (slot_of n₀) t.hash_index (omega arith) h.size
                (omega (arith, h.room)) in
            let value : (length c + 1) % 2 ^ 16 ≡ length c + 1 = omega arith in
            rw
              (
                insert_probe-new (c ++ s ∷ []) n₀ (length c) shim_hash_size (slot_of n₀)
                    t.hash_index (start ∙ f) free,
                value,
              )
              (IsTable-taken c s t.hash_index h n₀ e f q free)
      ]

  pub hash_insert_first-IsTable :
      length c < shim_stub_count
      → t.cache ≡ c ++ s ∷ []
      → IsTable c t.hash_index
      → IsTable (c ++ s ∷ []) (hash_insert_first s (length c) t).hash_index
  unfolding hash_insert_first
  hash_insert_first-IsTable b grown h = elim (Option-cases s.name) [
    | inl e ↦
        let known : (name : List ℕ) → has_name name s ≡ true → first_index c name ≢ none =
          λ name y. absurd (nameless_has_no_name name s e y) in
        let same : (hash_insert_first s (length c) t).hash_index ≡ t.hash_index =
          rw (hash_insert_first, e) in
        rw same (IsTable-skip c s t.hash_index h known)
    | inr (n₀, e) ↦
        let small : leb (2 ^ 16 - 1) (length c) ≡ false = ground arith in
        let new : (hash_insert_first s (length c) t).hash_index
            ≡ insert_probe t.cache n₀ (length c) shim_hash_size (slot_of n₀) t.hash_index =
          rw (hash_insert_first, e, small) in
        rw (new, grown) (insert_named-IsTable n₀ e b h)
  ]

pub hash_insert_first_rest :
    (s : LinuxSymbol) (i : ℕ) (t : Shims)
    → ((hash_insert_first s i t).cache ≡ t.cache)
      × ((hash_insert_first s i t).overflow ≡ t.overflow)
unfolding hash_insert_first
hash_insert_first_rest s i t = ground arith
