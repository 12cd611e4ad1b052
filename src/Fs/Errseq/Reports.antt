-- ===== src/Fs/Errseq/Reports.antt =====
-- What readers of an error sequence of src/linux_subsystem/fs/fs.c are told.
use kobox.Prelude.{
  ==_refl, Bool-cases, List, [], ap, arith, false, if◌then◌else◌, inl, inr, length, ltb, neg,
  negsuc, none, pos, refl, some, suc, sym, true, u32_mod, ℕ, ℤ, ◌%◌, ◌+◌, ◌/◌, ◌<◌, ◌==◌, ◌∙◌, ◌∷◌,
  ◌≡◌, ◌≢◌, ◌≤◌, ◌⊎◌,
}
use kobox.Fs.Errseq.{
  is_seen, replacement, errseq_set_loop, errseq_set, errseq_check, errseq_check_and_advance,
  word_or,
}
use kobox.Fs.Errseq.Pending.{replacement_lem}

-- What other threads do to the sequence, one call after the other: an error is set, or a reader with
-- the cursor `since` is told.
pub data Event : Type 0 where
  failed : ℤ → Event
  told : ℕ → Event

abbrev pub happen : Event → ℕ → ℕ
happen (failed error) word = word_or word (errseq_set [] (some word) error).1
happen (told since) word = word_or word (errseq_check_and_advance none (some word) (some since)).1

unfoldable pub happen_all : List Event → ℕ → ℕ
happen_all [] word = word
happen_all (e ∷ es) word = happen_all es (happen e word)

-- The errors that errseq_set accepts are -4095 to -1: the magnitude of one, or 0.
abbrev pub magnitude : Event → ℕ
magnitude (failed (negsuc n)) = if ltb 4095 (suc n) then 0 else suc n
magnitude _ = 0

-- The last error of the events, or `so_far`.
unfoldable pub last_error : List Event → ℕ → ℕ
last_error [] so_far = so_far
last_error (e ∷ es) so_far = last_error es (if magnitude e == 0 then so_far else magnitude e)

-- The word after at most `steps` errors, of which the last is `e`, on the seen word `first`.
abbrev After : ℕ → ℕ → ℕ → ℕ → Type 0
After first steps e word =
    ((e ≡ 0) × (word ≡ first))
    ⊎ ((e ≢ 0)
        × (word < u32_mod)
        × (word % 4096 ≡ e)
        × ((j : ℕ) × (1 ≤ j) × (j ≤ steps) × (word / 8192 ≡ (first / 8192 + j) % 524288)))

happen-failed : (n w : ℕ) → suc n ≤ 4095 → happen (failed (negsuc n)) w ≡ replacement (suc n) w
unfolding errseq_set errseq_set_loop
happen-failed n w h =
    let small : ltb 4095 (suc n) ≡ false = ground arith in
    elim (Bool-cases (replacement (suc n) w == w)) [
      | inl e ↦
          let same : replacement (suc n) w ≡ w = ground arith in rw (small, same) (ground arith)
      | inr e ↦ rw (small, e) refl
    ]

happen-refused : (n w : ℕ) → 4095 < suc n → happen (failed (negsuc n)) w ≡ w
unfolding errseq_set
happen-refused n w h = let big : ltb 4095 (suc n) ≡ true = ground arith in rw big refl

-- A reader changes nothing but the mark.
happen-told :
    (s w : ℕ)
    → w < u32_mod
    → (happen (told s) w < u32_mod)
      × (happen (told s) w % 4096 ≡ w % 4096)
      × (happen (told s) w / 8192 ≡ w / 8192)
      × (is_seen w ≡ true → happen (told s) w ≡ w)
unfolding errseq_check_and_advance
happen-told s w b = elim (Bool-cases (w == s)) [
  | inl e ↦ rw e (b, refl, refl, λ h. refl)
  | inr e ↦ elim (Bool-cases (is_seen w)) [
    | inl t ↦ rw (e, t, ==_refl w) (b, refl, refl, λ h. refl)
    | inr t ↦
        let moved : (w + 4096 == w) ≡ false = ground arith in
        let even : w / 4096 % 2 ≢ 1 = ground arith in
        let fits : w + 4096 < u32_mod = omega arith in
        let mask : (w + 4096) % 4096 ≡ w % 4096 = omega arith in
        let count : (w + 4096) / 8192 ≡ w / 8192 = omega arith in
        rw (e, t, moved) (fits, mask, count, λ h. absurd (cc))
  ]
]

After-later : (first steps e w : ℕ) → After first steps e w → After first (steps + 1) e w
After-later first steps e w (inl a) = inl a
After-later first steps e w (inr (n, b, m, (j, l, g, c))) = inr (n, b, m, (j, l, omega arith, c))

After-set :
    (first steps e w m : ℕ)
    → first < u32_mod
    → is_seen first ≡ true
    → 1 ≤ m
    → m ≤ 4095
    → After first steps e w
    → After first (steps + 1) m (replacement m w)
After-set first steps e w m b s l h (inl (z, same)) =
    let r = replacement_lem m first l h b in
    rw same (inr (omega arith, r.1, r.0, (1, omega arith, omega arith, rw (r.3, s) refl)))
After-set first steps e w m b s l h (inr (n, fits, mask, (j, low, high, count))) =
    let r = replacement_lem m w l h fits in
    elim (Bool-cases (is_seen w)) [
      | inl t ↦
          let next : replacement m w / 8192 ≡ (w / 8192 + 1) % 524288 = rw (r.3, t) refl in
          inr (omega arith, r.1, r.0, (j + 1, omega arith, omega arith, omega arith))
      | inr t ↦
          let next : replacement m w / 8192 ≡ w / 8192 = rw (r.3, t) refl in
          inr (omega arith, r.1, r.0, (j, omega arith, omega arith, omega arith))
    ]

After-told :
    (first steps e w since : ℕ)
    → first < u32_mod
    → is_seen first ≡ true
    → After first steps e w
    → After first steps e (happen (told since) w)
After-told first steps e w since b s (inl (z, same)) =
    rw same (inl (z, (happen-told since first b).3 s))
After-told first steps e w since b s (inr (n, fits, mask, (j, low, high, count))) =
    let r = happen-told since w fits in inr (n, r.0, r.1 ∙ mask, (j, low, high, r.2 ∙ count))

happen-After :
    (first steps e w : ℕ) (v : Event)
    → first < u32_mod
    → is_seen first ≡ true
    → After first steps e w
    → After first (steps + 1) (if magnitude v == 0 then e else magnitude v) (happen v w)
unfolding errseq_set
happen-After first steps e w (failed (pos n)) b s a = After-later first steps e w a
happen-After first steps e w (failed (negsuc n)) b s a = elim (Bool-cases (ltb 4095 (suc n))) [
  | inl big ↦ rw (happen-refused n w (ground arith), big) (After-later first steps e w a)
  | inr small ↦
      let some_error : (suc n == 0) ≡ false = ground arith in
      rw (happen-failed n w (ground arith), small, some_error)
        (After-set first steps e w (suc n) b s (omega arith) (ground arith) a)
]
happen-After first steps e w (told since) b s a =
    After-later first steps e (happen (told since) w) (After-told first steps e w since b s a)

happen_all-After :
    (first steps e w : ℕ) (vs : List Event)
    → first < u32_mod
    → is_seen first ≡ true
    → After first steps e w
    → After first (steps + length vs) (last_error vs e) (happen_all vs w)
unfolding happen_all last_error
happen_all-After first steps e w [] b s a =
    let none_left : steps + 0 ≡ steps = omega arith in rw none_left a
happen_all-After first steps e w (v ∷ vs) b s a =
    let one_more : steps + suc (length vs) ≡ (steps + 1) + length vs = omega arith in
    rw one_more (
      happen_all-After first (steps + 1) (if magnitude v == 0 then e else magnitude v) (happen v w)
        vs b s (happen-After first steps e w v b s a))

-- What a reader is told whose cursor is the seen word `first`.
abbrev pub Tells : ℕ → ℕ → ℕ → Type 0
Tells first word e =
    (errseq_check (some word) first ≡ neg e)
    × ((now : ℕ) × (errseq_check_and_advance none (some word) (some first)
          ≡ (neg e, some now, some now))
        × (now < u32_mod)
        × (is_seen now ≡ true))

seen_word :
    (w : ℕ)
    → w < u32_mod
    → is_seen w ≡ false
    → (w + 4096 < u32_mod) × (is_seen (w + 4096) ≡ true) × ((w + 4096) % 4096 ≡ w % 4096)
seen_word w b h =
    let even : w / 4096 % 2 ≢ 1 = ground arith in
    let odd : (w + 4096) / 4096 % 2 ≡ 1 = omega arith in (omega arith, rw odd refl, omega arith)

After-Tells :
    (first steps e w : ℕ)
    → first < u32_mod
    → is_seen first ≡ true
    → steps < 524288
    → After first steps e w
    → Tells first w e
unfolding errseq_check errseq_check_and_advance
After-Tells first steps e w b s few (inl (z, same)) =
    rw (z, same, ==_refl first) (refl, (first, refl, b, s))
After-Tells first steps e w b s few (inr (n, fits, mask, (j, low, high, count))) =
    let other : w ≢ first = λ same.
      let c : first / 8192 ≡ (first / 8192 + j) % 524288 = ap (λ x. x / 8192) (sym same) ∙ count in
      omega arith in
    let differs : (w == first) ≡ false = ground arith in
    elim (Bool-cases (is_seen w)) [
      | inl t ↦ rw (differs, t, mask, ==_refl w) (refl, (w, refl, fits, t))
      | inr t ↦
          let moved : (w + 4096 == w) ≡ false = ground arith in
          let v = seen_word w fits t in
          rw (differs, t, moved, v.2, mask) (refl, (w + 4096, refl, v.0, v.1))
    ]

-- A reader is told the last error, and once: its cursor is a seen word, as after every report, and
-- then fewer than 2^19 calls of others follow, each of which sets an error or reports to another
-- reader, with any cursor. The check and the report then give the last error that was set, 0 if
-- there was none; and the sequence and the new cursor are one seen word, so that all this holds
-- again of the reader's next report.
pub errseq_check_and_advance-Tells :
    (first : ℕ) (vs : List Event)
    → first < u32_mod
    → is_seen first ≡ true
    → length vs < 524288
    → Tells first (happen_all vs first) (last_error vs 0)
errseq_check_and_advance-Tells first vs b s few =
    After-Tells first (0 + length vs) (last_error vs 0) (happen_all vs first) b s (omega arith)
      (happen_all-After first 0 0 first vs b s (inl (refl, refl)))
