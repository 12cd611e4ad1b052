-- ===== src/Loader/Shims/Lookup.antt =====
-- What lookups by name answer.
use kobox.Prelude.{
  List, Option, Option-cases, [], ap, arith, get_elem?, if◌then◌else◌, inl, inr, leb_cases, length,
  ltb, ltb-le, ltb-lt, none, refl, some, suc, take, true, zero, ℕ, ◌+◌, ◌∙◌, ◌∷◌, ◌≡◌, ◌⊎◌,
}
use kobox.Loader.Shims.{
  LinuxSymbol, Shims, shim_stub_count, shim_hash_size, no_shims, slot_of, find_probe,
  append_providers, shim_table_init, shim_find_index, shim_table_count, shim_table_at,
  shim_find_address, has_name,
}
use kobox.Loader.Shims.First.{first_index}
use kobox.Loader.Shims.Built.{
  IsBuilt, take_all, all_symbols, append_providers-IsBuilt, no_shims-IsBuilt,
}

-- The address of the first symbol with the name, 0 if there is none.
unfoldable pub first_address : List LinuxSymbol → List ℕ → ℕ
first_address [] name = 0
first_address (s ∷ ss) name = if has_name name s then s.address else first_address ss name

abbrev address_at : List LinuxSymbol → Option ℕ → ℕ
address_at c none = 0
address_at c (some i) = elim (get_elem? c i) [ none ↦ 0 | some s ↦ s.address ]

address_at-first_index :
    (c : List LinuxSymbol) (name : List ℕ)
    → address_at c (first_index c name) ≡ first_address c name
unfolding first_index first_address
address_at-first_index [] name = refl
address_at-first_index (s ∷ c) name = elim (Option-cases (first_index c name)) [
  | inl e ↦ ground (arith, e, address_at-first_index c name)
  | inr (i, e) ↦
      let at : i + 1 ≡ suc i = omega arith in
      let rest : address_at c (some i) ≡ first_address c name =
        rw e at (address_at-first_index c name) in
      rw (e, at) (ground arith)
]

module _ (providers : List (Option (List LinuxSymbol))) where
  -- The table before the first lookup, or after some.
  IsShims : Shims → Type 0
  IsShims t = (t ≡ no_shims) ⊎ ((t.ready ≡ true) × IsBuilt (all_symbols providers) t)

  init_ready : (t : Shims) → t.ready ≡ true → shim_table_init providers t ≡ t
  unfolding shim_table_init
  init_ready t e =
      ap (λ b. if b then t else record (append_providers providers t) { ready = true }) e

  init-ready : (t : Shims) → (shim_table_init providers t).ready ≡ true
  unfolding shim_table_init
  init-ready t = ground arith

  shim_table_init_again :
      (t : Shims)
      → shim_table_init providers (shim_table_init providers t) ≡ shim_table_init providers t
  shim_table_init_again t = init_ready (shim_table_init providers t) (init-ready t)

  shim_table_init-IsBuilt :
      (t : Shims)
      → IsShims t
      → ((shim_table_init providers t).ready ≡ true)
        × IsBuilt (all_symbols providers) (shim_table_init providers t)
  unfolding IsShims shim_table_init
  shim_table_init-IsBuilt t (inr (e, h)) = rw (init_ready t e) (e, h)
  shim_table_init-IsBuilt t (inl e) =
      let h : IsBuilt (all_symbols providers) (append_providers providers no_shims) =
        append_providers-IsBuilt providers [] no_shims no_shims-IsBuilt in
      rw e (refl, record { table = h.table; cached = h.cached; cut = h.cut })

  shim_find_address_eq :
      (t : Shims) (name : List ℕ)
      → shim_find_address providers t name ≡ (
        address_at (shim_table_init providers t).cache (
            find_probe
              (shim_table_init providers t).cache
              name
              shim_hash_size
              (slot_of name)
              (shim_table_init providers t).hash_index),
        shim_table_init providers t,
      )
  unfolding shim_find_address shim_find_index shim_table_at
  shim_find_address_eq t name =
      let again = shim_table_init_again t in
      elim (Option-cases (
        find_probe (shim_table_init providers t).cache name shim_hash_size (slot_of name)
          (shim_table_init providers t).hash_index)) [
            | inl e ↦ rw (shim_find_address, shim_find_index, e)
            | inr (i, e) ↦ elim (Option-cases (get_elem? (shim_table_init providers t).cache i)) [
              | inl g ↦ rw (shim_find_address, e, again, g, address_at) (ap (λ u. (zero, u)) again)
              | inr (s, g) ↦
                  rw (shim_find_address, e, again, g, address_at) (ap (λ u. (s.address, u)) again)
            ]
          ]

  find_address_step :
      (t : Shims) (name : List ℕ)
      → IsShims t
      → ((shim_find_address providers t name).0
          ≡ first_address (take shim_stub_count (all_symbols providers)) name)
        × IsShims (shim_find_address providers t name).1
  unfolding IsShims
  find_address_step t name h =
      let (ready, b) = shim_table_init-IsBuilt t h in
      rw (shim_find_address_eq t name) (
        ap (address_at (shim_table_init providers t).cache) (b.table.complete name)
            ∙ address_at-first_index (shim_table_init providers t).cache name
            ∙ ap (λ c. first_address c name) b.cached,
        inr (ready, b),
      )

  pub after_lookups : List (List ℕ) → Shims → Shims
  after_lookups [] t = t
  after_lookups (name ∷ names) t = after_lookups names (shim_find_address providers t name).1

  after_lookups-IsShims :
      (names : List (List ℕ)) (t : Shims) → IsShims t → IsShims (after_lookups names t)
  unfolding after_lookups
  after_lookups-IsShims [] t h = h
  after_lookups-IsShims (name ∷ names) t h =
      after_lookups-IsShims names (shim_find_address providers t name).1
        (find_address_step t name h).1

  start-IsShims : IsShims no_shims
  unfolding IsShims
  start-IsShims = inl refl

  -- Whatever was looked up before, a name's lookup answers the address of the first symbol of that
  -- name among the first 4096 that the providers give, and 0 if none of them has the name.
  pub shim_find_address-eq-first_address :
      (before : List (List ℕ)) (name : List ℕ)
      → (shim_find_address providers (after_lookups before no_shims) name).0
        ≡ first_address (take shim_stub_count (all_symbols providers)) name
  shim_find_address-eq-first_address before name =
      (find_address_step _ name (after_lookups-IsShims before no_shims start-IsShims)).0

  -- The count is that of all the providers' symbols if they fit in the table, and one more than it
  -- holds if they do not, whatever was looked up before.
  shim_table_count_lem :
      (before : List (List ℕ))
      → (shim_table_count providers (after_lookups before no_shims)).0 ≡ (
          if ltb shim_stub_count (length (all_symbols providers))
          then shim_stub_count + 1
          else length (all_symbols providers))
  unfolding shim_table_count
  shim_table_count_lem before =
      let (_, b) =
        shim_table_init-IsBuilt _ (after_lookups-IsShims before no_shims start-IsShims) in
      elim (leb_cases (length (all_symbols providers)) shim_stub_count) [
        | inl (_, fits) ↦
            let off = b.cut ∙ ltb-le _ _ fits in
            rw (off, ltb-le _ _ fits, b.cached, take_all shim_stub_count _ fits)
        | inr (_, over) ↦ let on = b.cut ∙ ltb-lt _ _ over in rw (on, ltb-lt _ _ over)
      ]
