-- ===== src/Loader/Resolve/Found.antt =====
-- What the lookups answer.
use kobox.Prelude.{
  Bool-cases, List, Option-cases, ap, arith, false, inl, inr, none, not_found, same_text, some, suc,
  true, zero, ℕ, ◌+◌, ◌<◌, ◌==◌, ◌∙◌, ◌≡◌,
}
use kobox.Elf.Bytes.{ok, err, ◌>>=◌, parts_of_ok}
use kobox.Elf.File.{Section, elf_section}
use kobox.Elf.Entries.{Symbol, elf_symbol, elf_symbol_count, is_symbols}
use kobox.Loader.Resolve.{
  Module, symbol_address, resolve_symbol, find_in_table, find_in_sections, find_symbol_address,
}

module _ (shim_address : List ℕ → ℕ) (m : Module) (name : List ℕ) where
  -- No symbol of the table before `index` has the name.
  abbrev IsAbsent : ℕ → ℕ → Type 0
  IsAbsent table index =
      (i : ℕ) (t : Symbol)
      → i < index
      → elf_symbol m.elf table i ≡ ok t
      → same_text t.name name ≡ false

  -- The symbol at `index` of the table has the name and the address, and it is the first.
  pub record IsFirst (table index : ℕ) (symbol : Symbol) (address : ℕ) : Type 0 where
    pub read : elf_symbol m.elf table index ≡ ok symbol
    pub named : same_text symbol.name name ≡ true
    pub resolved : symbol_address shim_address m symbol ≡ ok address
    pub first : IsAbsent table index
    pub earlier :
        (k count : ℕ) (s : Section)
        → k < table
        → elf_section m.elf k ≡ ok s
        → is_symbols s ≡ true
        → elf_symbol_count m.elf k ≡ ok count
        → IsAbsent k count

  IsAbsent-next :
      (table index : ℕ) (symbol : Symbol)
      → elf_symbol m.elf table index ≡ ok symbol
      → same_text symbol.name name ≡ false
      → IsAbsent table index
      → IsAbsent table (index + 1)
  IsAbsent-next table index symbol read other h i t lt read' = elim (Bool-cases (i == index)) [
    | inl e ↦
        let at : i ≡ index = ground arith in
        let read'' : elf_symbol m.elf table index ≡ ok t = rw at at read' in
        let same : symbol ≡ t = cc in rw (← same) other
    | inr e ↦ h i t (ground arith) read'
  ]

  find_in_table-none :
      (table n index : ℕ)
      → find_in_table shim_address m name table n index ≡ ok none
      → IsAbsent table index
      → IsAbsent table (index + n)
  unfolding find_in_table
  find_in_table-none table zero index e h = let z : index + 0 ≡ index = omega arith in rw z h
  find_in_table-none table (suc n) index e h =
      let (symbol, read, rest) = parts_of_ok (elf_symbol m.elf table index) _ e in
      elim (Bool-cases (same_text symbol.name name)) [
        | inl y ↦
            let run : (resolve_symbol shim_address m table index >>= (λ a. ok (some a))) ≡ ok none =
              rw y at rest in
            let (a, _, bad) =
              parts_of_ok (resolve_symbol shim_address m table index) (λ a. ok (some a)) run in
            absurd (cc)
        | inr f ↦
            let z : index + suc n ≡ index + 1 + n = omega arith in
            rw z (
              find_in_table-none table n (index + 1) (rw f at rest)
                (IsAbsent-next table index symbol read f h))
      ]

  find_in_table-some :
      (table n index : ℕ) {address : ℕ}
      → find_in_table shim_address m name table n index ≡ ok (some address)
      → IsAbsent table index
      → (i : ℕ) × (symbol : Symbol) × (elf_symbol m.elf table i ≡ ok symbol)
        × (same_text symbol.name name ≡ true)
        × (symbol_address shim_address m symbol ≡ ok address)
        × IsAbsent table i
  unfolding find_in_table resolve_symbol
  find_in_table-some table zero index e h = absurd (cc)
  find_in_table-some table (suc n) index {address} e h =
      let (symbol, read, rest) = parts_of_ok (elf_symbol m.elf table index) _ e in
      elim (Bool-cases (same_text symbol.name name)) [
        | inl y ↦
            let run : (resolve_symbol shim_address m table index >>= (λ a. ok (some a)))
                ≡ ok (some address) =
              rw y at rest in
            let (a, found, same) =
              parts_of_ok (resolve_symbol shim_address m table index) (λ a. ok (some a)) run in
            let at : a ≡ address = cc in
            (index, symbol, read, y, rw (resolve_symbol, read) at found ∙ ap ok at, h)
        | inr f ↦
            find_in_table-some table n (index + 1) (rw f at rest)
              (IsAbsent-next table index symbol read f h)
      ]

  abbrev AllAbsent : ℕ → Type 0
  AllAbsent table =
      (k count : ℕ) (s : Section)
      → k < table
      → elf_section m.elf k ≡ ok s
      → is_symbols s ≡ true
      → elf_symbol_count m.elf k ≡ ok count
      → IsAbsent k count

  AllAbsent-next :
      (table : ℕ) (s : Section)
      → elf_section m.elf table ≡ ok s
      → ((count : ℕ)
          → is_symbols s ≡ true
          → elf_symbol_count m.elf table ≡ ok count
          → IsAbsent table count)
      → AllAbsent table
      → AllAbsent (table + 1)
  AllAbsent-next table s read absent h k count t lt read' = elim (Bool-cases (k == table)) [
    | inl e ↦
        let at : k ≡ table = ground arith in
        let read'' : elf_section m.elf table ≡ ok t = rw at at read' in
        let same : s ≡ t = cc in
        λ y counted i u b symbol.
          let y' : is_symbols s ≡ true = rw same y in
          let counted' : elf_symbol_count m.elf table ≡ ok count = rw at at counted in
          absent count y' counted' i u b (rw at at symbol)
    | inr e ↦ h k count t (ground arith) read'
  ]

  find_in_sections-some :
      (n table : ℕ) {address : ℕ}
      → find_in_sections shim_address m name n table ≡ ok (some address)
      → AllAbsent table
      → (k : ℕ) × (i : ℕ) × (symbol : Symbol) × IsFirst k i symbol address
  unfolding find_in_sections
  find_in_sections-some zero table e h = absurd (cc)
  find_in_sections-some (suc n) table {address} e h =
      let (s, read, rest) = parts_of_ok (elf_section m.elf table) _ e in
      elim (Bool-cases (is_symbols s)) [
        | inr off ↦
            find_in_sections-some n (table + 1) (rw off at rest)
              (AllAbsent-next table s read (λ c y. absurd (cc)) h)
        | inl on ↦
            let (count, counted, run) =
              parts_of_ok (elf_symbol_count m.elf table) _ (rw on at rest) in
            let (found, search', last) =
              parts_of_ok (find_in_table shim_address m name table count 0) _ run in
            elim (Option-cases found) [
              | inr (a, is) ↦
                  let hit : find_in_table shim_address m name table count 0 ≡ ok (some a) =
                    rw is at search' in
                  let same : ok (some a) ≡ ok (some address) = rw is at last in
                  let at : a ≡ address = cc in
                  let (i, symbol, read', named, resolved, first) =
                    find_in_table-some table count 0 hit (λ i t b. absurd (omega arith)) in
                  (
                    table,
                    i,
                    symbol,
                    record {
                      read = read';
                      named = named;
                      resolved = resolved ∙ ap ok at;
                      first = first;
                      earlier = h;
                    },
                  )
              | inl is ↦
                  let miss : find_in_table shim_address m name table count 0 ≡ ok none =
                    rw is at search' in
                  let none' : IsAbsent table (0 + count) =
                    find_in_table-none table count 0 miss (λ i t b. absurd (omega arith)) in
                  let absent : (c : ℕ)
                      → is_symbols s ≡ true
                      → elf_symbol_count m.elf table ≡ ok c
                      → IsAbsent table c =
                    λ c y counted' i t b. let same : count ≡ c = cc in none' i t (omega arith) in
                  find_in_sections-some n (table + 1) (rw is at last)
                    (AllAbsent-next table s read absent h)
            ]
      ]

  -- An address that find_symbol_address answers is that of the first symbol of the name, in the
  -- order of the symbol tables and of the symbols in them.
  pub find_symbol_address-IsFirst :
      {address : ℕ}
      → find_symbol_address shim_address m name ≡ ok address
      → (table : ℕ) × (index : ℕ) × (symbol : Symbol) × IsFirst table index symbol address
  unfolding find_symbol_address
  find_symbol_address-IsFirst {address} e =
      let (found, search', last) =
        parts_of_ok (find_in_sections shim_address m name m.elf.section_count 0) _ e in
      elim (Option-cases found) [
        | inl is ↦ let bad : err not_found ≡ ok address = rw is at last in absurd (cc)
        | inr (a, is) ↦
            let same : ok a ≡ ok address = rw is at last in
            let at : a ≡ address = cc in
            let hit : find_in_sections shim_address m name m.elf.section_count 0
                ≡ ok (some address) =
              search' ∙ ap ok (is ∙ ap some at) in
            find_in_sections-some m.elf.section_count 0 hit (λ k c t b. absurd (omega arith))
      ]
