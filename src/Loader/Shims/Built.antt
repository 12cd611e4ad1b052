-- ===== src/Loader/Shims/Built.antt =====
-- What the providers' symbols leave in the table.
use mathlib.Core.List.{append-nil, append_assoc}
use kobox.Prelude.{
  List, Option, [], ap, arith, get_or, inl, inr, leb_cases, length, length-replicate, ltb, ltb-le,
  ltb-lt, none, refl, replicate, some, suc, sym, take, true, zero, ℕ, ◌++◌, ◌<◌, ◌∙◌, ◌∷◌, ◌≡◌, ◌≤◌,
}
use kobox.Loader.Shims.{
  LinuxSymbol, Shims, shim_stub_count, shim_hash_size, no_shims, slot_of, hash_insert_first,
  append_symbols, append_provider, append_providers,
}
use kobox.Loader.Shims.First.{first_index, length-append}
use kobox.Loader.Shims.Probe.{count_used-replicate, find_probe-none}
use kobox.Loader.Shims.Table.{IsTable}
use kobox.Loader.Shims.Insert.{hash_insert_first-IsTable, hash_insert_first_rest}

module _ {ℓ} {A : Type ℓ} where
  take-append : (n : ℕ) (xs ys : List A) → n ≤ length (take n xs) → take n (xs ++ ys) ≡ take n xs
  take-append zero xs ys h = refl
  take-append (suc n) [] ys h = absurd (omega arith)
  take-append (suc n) (x ∷ xs) ys h = ap (λ l. x ∷ l) (take-append n xs ys (omega arith))

  pub take_all : (n : ℕ) (xs : List A) → length xs ≤ n → take n xs ≡ xs
  take_all zero [] h = refl
  take_all zero (x ∷ xs) h = absurd (omega arith)
  take_all (suc n) [] h = refl
  take_all (suc n) (x ∷ xs) h = ap (λ l. x ∷ l) (take_all n xs (omega arith))

  length-take_lt : (n : ℕ) (xs : List A) → length (take n xs) < n → length xs < n
  length-take_lt zero xs h = absurd (omega arith)
  length-take_lt (suc n) [] h = omega arith
  length-take_lt (suc n) (x ∷ xs) h = omega (arith, length-take_lt n xs)

  length-take_ge : (n : ℕ) (xs : List A) → n ≤ length (take n xs) → n ≤ length xs
  length-take_ge zero xs h = omega arith
  length-take_ge (suc n) [] h = absurd (omega arith)
  length-take_ge (suc n) (x ∷ xs) h = omega (arith, length-take_ge n xs)

pub record IsBuilt (given : List LinuxSymbol) (t : Shims) : Type 0 where
  pub table : IsTable t.cache t.hash_index
  pub cached : t.cache ≡ take shim_stub_count given
  pub cut : t.overflow ≡ ltb shim_stub_count (length given)

append_one-IsBuilt :
    (d : List LinuxSymbol) (s : LinuxSymbol) (t : Shims)
    → IsBuilt d t
    → length t.cache < shim_stub_count
    → IsBuilt
        (d ++ s ∷ [])
        (hash_insert_first s (length t.cache) (record t { cache = t.cache ++ s ∷ [] }))
append_one-IsBuilt d s t h b =
    let t' : Shims = record t { cache = t.cache ++ s ∷ [] } in
    let (kept, same) = hash_insert_first_rest s (length t.cache) t' in
    let b' : length (take shim_stub_count d) < shim_stub_count = rw h.cached at b in
    let short : length d < shim_stub_count = length-take_lt shim_stub_count d b' in
    let size : length (d ++ s ∷ []) ≤ shim_stub_count = omega (arith, length-append d (s ∷ [])) in
    let grown : t.cache ++ s ∷ [] ≡ take shim_stub_count (d ++ s ∷ []) = rw (
      h.cached,
      take_all shim_stub_count d (omega arith),
      take_all shim_stub_count (d ++ s ∷ []) size,
    ) in
    record {
      table = rw kept (hash_insert_first-IsTable t.cache s t' b refl h.table);
      cached = kept ∙ grown;
      cut =
          same
          ∙ h.cut
          ∙ ltb-le shim_stub_count (length d) (omega arith)
          ∙ sym (ltb-le shim_stub_count (length (d ++ s ∷ [])) size);
    }

append_full-IsBuilt :
    (d ss : List LinuxSymbol) (t : Shims)
    → IsBuilt d t
    → shim_stub_count ≤ length t.cache
    → 0 < length ss
    → IsBuilt (d ++ ss) (record t { overflow = true })
append_full-IsBuilt d ss t h b more =
    let b' : shim_stub_count ≤ length (take shim_stub_count d) = rw h.cached at b in
    let long : shim_stub_count ≤ length d = length-take_ge shim_stub_count d b' in
    record {
      table = h.table;
      cached = h.cached ∙ sym (take-append shim_stub_count d ss b');
      cut = sym (ltb-lt shim_stub_count (length (d ++ ss)) (omega (arith, length-append d ss)));
    }

append_symbols-IsBuilt :
    (ss d : List LinuxSymbol) (t : Shims) → IsBuilt d t → IsBuilt (d ++ ss) (append_symbols ss t)
unfolding append_symbols
append_symbols-IsBuilt [] d t h = rw (append-nil d) h
append_symbols-IsBuilt (s ∷ ss) d t h = elim (leb_cases shim_stub_count (length t.cache)) [
  | inl (e, full) ↦ rw e (append_full-IsBuilt d (s ∷ ss) t h full (omega arith))
  | inr (e, room) ↦
      let next : IsBuilt ((d ++ s ∷ []) ++ ss) _ =
        append_symbols-IsBuilt ss (d ++ s ∷ []) _ (append_one-IsBuilt d s t h room) in
      rw (e, ← append_assoc d (s ∷ []) ss) next
]

-- The symbols that the providers give, in order.
unfoldable pub all_symbols : List (Option (List LinuxSymbol)) → List LinuxSymbol
all_symbols [] = []
all_symbols (none ∷ ps) = all_symbols ps
all_symbols (some ss ∷ ps) = ss ++ all_symbols ps

pub append_providers-IsBuilt :
    (ps : List (Option (List LinuxSymbol))) (d : List LinuxSymbol) (t : Shims)
    → IsBuilt d t
    → IsBuilt (d ++ all_symbols ps) (append_providers ps t)
unfolding append_providers append_provider all_symbols
append_providers-IsBuilt [] d t h = rw (append-nil d) h
append_providers-IsBuilt (none ∷ ps) d t h = append_providers-IsBuilt ps d t h
append_providers-IsBuilt (some ss ∷ ps) d t h =
    rw (← append_assoc d ss (all_symbols ps)) (
      append_providers-IsBuilt ps (d ++ ss) (append_symbols ss t) (append_symbols-IsBuilt ss d t h))

get_or-replicate : (n i : ℕ) → get_or (replicate n zero) i zero ≡ zero
get_or-replicate zero i = refl
get_or-replicate (suc n) zero = refl
get_or-replicate (suc n) (suc i) = get_or-replicate n i

no_slots : List ℕ
no_slots = replicate shim_hash_size 0

no_slots_lem : (r : ℕ) → get_or no_slots r 0 ≡ 0
unfolding no_slots
no_slots_lem r = get_or-replicate shim_hash_size r

no_slots-IsTable : IsTable [] no_slots
unfolding no_slots first_index
no_slots-IsTable = record {
  size = length-replicate shim_hash_size zero;
  room = omega (count_used-replicate shim_hash_size, arith);
  stored = λ r. omega (no_slots_lem r, arith);
  is_first = λ r name nz h. absurd (nz (no_slots_lem r));
  complete = λ name.
      find_probe-none [] name shim_hash_size (slot_of name) no_slots
        (λ r nz. absurd (nz (no_slots_lem r)));
}

pub no_shims-IsBuilt : IsBuilt [] no_shims
unfolding no_slots
no_shims-IsBuilt = record { table = no_slots-IsTable; cached = refl; cut = refl }
