-- ===== src/Loader/Shims/Probe.antt =====
-- The probe loops: which slot an insertion takes, and how taking it changes the lookups.
use kobox.Prelude.{
  Bool-cases, List, Option, Option-cases, [], arith, false, get_or, get_or-set_ne, get_or-set_self,
  if◌then◌else◌, inl, inr, length, none, refl, replicate, set, some, suc, true, zero, ℕ, ◌%◌, ◌++◌,
  ◌+◌, ◌-◌, ◌<◌, ◌==◌, ◌^◌, ◌∷◌, ◌≡◌, ◌≢◌, ◌≤◌,
}
use kobox.Loader.Shims.{
  LinuxSymbol, shim_hash_size, next_slot, slot_matches, insert_probe, find_probe,
}
use kobox.Loader.Shims.First.{slot_matches-append}

-- The first free slot on the way.
pub free_slot : ℕ → ℕ → List ℕ → Option ℕ
free_slot zero slot hs = none
free_slot (suc n) slot hs =
    let rest = free_slot n (next_slot slot) hs in if get_or hs slot 0 == 0 then some slot else rest

pub free_slot_lem :
    (n slot : ℕ) (hs : List ℕ) {q : ℕ}
    → free_slot n slot hs ≡ some q
    → slot < shim_hash_size
    → (get_or hs q 0 ≡ 0) × (q < shim_hash_size)
unfolding free_slot
free_slot_lem zero slot hs h b = absurd (cc)
free_slot_lem (suc n) slot hs {q} h b = elim (Bool-cases (get_or hs slot 0 == 0)) [
  | inl z ↦
      let at : slot ≡ q = ground arith in
      let z' : get_or hs slot 0 ≡ 0 = ground arith in rw (← at) (z', b)
  | inr nz ↦ free_slot_lem n (next_slot slot) hs (ground arith) (omega arith)
]

module _ (c : List LinuxSymbol) (name : List ℕ) where
  pub insert_probe-found :
      (index n slot : ℕ) (hs : List ℕ) {i : ℕ}
      → find_probe c name n slot hs ≡ some i
      → insert_probe c name index n slot hs ≡ hs
  unfolding insert_probe find_probe
  insert_probe-found index zero slot hs h = absurd (cc)
  insert_probe-found index (suc n) slot hs {i} h =
      ground (arith, insert_probe-found index n (next_slot slot) hs {i = i})

  pub insert_probe-new :
      (index n slot : ℕ) (hs : List ℕ) {q : ℕ}
      → find_probe c name n slot hs ≡ none
      → free_slot n slot hs ≡ some q
      → insert_probe c name index n slot hs ≡ set hs q ((index + 1) % 2 ^ 16)
  unfolding insert_probe find_probe free_slot
  insert_probe-new index zero slot hs h f = absurd (cc)
  insert_probe-new index (suc n) slot hs {q} h f =
      ground (arith, insert_probe-new index n (next_slot slot) hs {q = q})

  pub find_probe-set_other :
      (n slot : ℕ) (hs : List ℕ) (q v : ℕ) {i : ℕ}
      → get_or hs q 0 ≡ 0
      → find_probe c name n slot hs ≡ some i
      → find_probe c name n slot (set hs q v) ≡ some i
  unfolding find_probe
  find_probe-set_other zero slot hs q v z h = absurd (cc)
  find_probe-set_other (suc n) slot hs q v {i} z h =
      let same : get_or (set hs q v) slot 0 ≡ get_or hs slot 0 =
        get_or-set_ne hs v 0 (λ (e : q ≡ slot). ground (arith)) in
      ground (arith, same, find_probe-set_other n (next_slot slot) hs q v {i = i} z)

  pub find_probe-none :
      (n slot : ℕ) (hs : List ℕ)
      → ((r : ℕ) → get_or hs r 0 ≢ 0 → slot_matches c (get_or hs r 0) name ≡ false)
      → find_probe c name n slot hs ≡ none
  unfolding find_probe
  find_probe-none zero slot hs h = refl
  find_probe-none (suc n) slot hs h =
      ground (arith, h slot, find_probe-none n (next_slot slot) hs h)

  pub find_probe-set_free :
      (n slot : ℕ) (hs : List ℕ) (v : ℕ) {q : ℕ}
      → find_probe c name n slot hs ≡ none
      → free_slot n slot hs ≡ some q
      → q < length hs
      → v ≢ 0
      → slot_matches c v name ≡ true
      → find_probe c name n slot (set hs q v) ≡ some (v - 1)
  unfolding find_probe free_slot
  find_probe-set_free zero slot hs v h f b nz e = absurd (cc)
  find_probe-set_free (suc n) slot hs v {q} h f b nz e = elim (Bool-cases (get_or hs slot 0 == 0)) [
    | inl z ↦
        let at : q ≡ slot = ground arith in
        let here : get_or (set hs q v) slot 0 ≡ v = rw (← at) (get_or-set_self hs q v 0 b) in
        ground (arith, here)
    | inr nonzero ↦
        let later : free_slot n (next_slot slot) hs ≡ some q = ground arith in
        let free : get_or hs q 0 ≡ 0 =
          (free_slot_lem n (next_slot slot) hs later (omega arith)).0 in
        let same : get_or (set hs q v) slot 0 ≡ get_or hs slot 0 =
          get_or-set_ne hs v 0 (λ (a : q ≡ slot). ground arith) in
        ground (arith, same, find_probe-set_free n (next_slot slot) hs v {q = q})
  ]

  pub find_probe-append :
      (s : LinuxSymbol) (n slot : ℕ) (hs : List ℕ)
      → ((r : ℕ) → get_or hs r 0 ≤ length c)
      → find_probe (c ++ s ∷ []) name n slot hs ≡ find_probe c name n slot hs
  unfolding find_probe
  find_probe-append s zero slot hs h = refl
  find_probe-append s (suc n) slot hs h = ground (
    arith,
    h slot,
    slot_matches-append c s (get_or hs slot 0) name,
    find_probe-append s n (next_slot slot) hs h,
  )

-- A way of `n` slots with none free passes only used slots.
free_slot-none :
    (n slot : ℕ) (hs : List ℕ)
    → free_slot n slot hs ≡ none
    → slot < shim_hash_size
    → (i : ℕ) → i < n
    → get_or hs ((slot + i) % shim_hash_size) 0 ≢ 0
unfolding free_slot
free_slot-none zero slot hs h b i l = absurd (omega arith)
free_slot-none (suc n) slot hs h b zero l =
    let e : (slot + 0) % shim_hash_size ≡ slot = omega arith in rw e (ground arith)
free_slot-none (suc n) slot hs h b (suc i) l =
    let e : (slot + suc i) % shim_hash_size ≡ (next_slot slot + i) % shim_hash_size = omega arith in
    rw e (free_slot-none n (next_slot slot) hs (ground arith) (omega arith) i (omega arith))

pub count_used : List ℕ → ℕ
count_used [] = 0
count_used (h ∷ hs) = let rest = count_used hs in if h == 0 then rest else suc rest

pub count_used-replicate : (n : ℕ) → count_used (replicate n 0) ≡ 0
unfolding count_used
count_used-replicate zero = refl
count_used-replicate (suc n) = count_used-replicate n

pub count_used-set : (hs : List ℕ) (q v : ℕ) → count_used (set hs q v) ≤ count_used hs + 1
unfolding count_used
count_used-set [] q v = omega arith
count_used-set (h ∷ hs) zero v = ground arith
count_used-set (h ∷ hs) (suc q) v = ground (arith, count_used-set hs q v)

count_used-full :
    (hs : List ℕ) → ((r : ℕ) → r < length hs → get_or hs r 0 ≢ 0) → count_used hs ≡ length hs
unfolding count_used
count_used-full [] h = refl
count_used-full (x ∷ hs) h =
    let x≢0 : x ≢ 0 = h 0 (omega arith) in
    let rest : count_used hs ≡ length hs = count_used-full hs (λ r b. h (suc r) (omega arith)) in
    ground arith

-- A table with a free slot has one on every full way.
pub free_slot-some :
    (slot : ℕ) (hs : List ℕ)
    → slot < shim_hash_size
    → length hs ≡ shim_hash_size
    → count_used hs < shim_hash_size
    → (q : ℕ) × (free_slot shim_hash_size slot hs ≡ some q)
free_slot-some slot hs b size room = elim (Option-cases (free_slot shim_hash_size slot hs)) [
  | inr (q, e) ↦ (q, e)
  | inl e ↦
      let used : (r : ℕ) → r < length hs → get_or hs r 0 ≢ 0 = λ r l.
        let at : (slot + (r + shim_hash_size - slot) % shim_hash_size) % shim_hash_size ≡ r =
          omega arith in
        rw at at (
          free_slot-none shim_hash_size slot hs e b ((r + shim_hash_size - slot) % shim_hash_size)
            (omega arith)) in
      let full : count_used hs ≡ length hs = count_used-full hs used in absurd (omega arith)
]
