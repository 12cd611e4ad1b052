-- ===== src/Fs/Errseq/Pending.antt =====
-- An error that is set in src/linux_subsystem/fs/fs.c while other threads write the sequence.
use kobox.Prelude.{
  All, Bool-cases, List, [], arith, false, if◌then◌else◌, inl, inr, ltb, negsuc, refl, some, suc,
  sym, true, u32_mod, ℕ, ◌%◌, ◌+◌, ◌/◌, ◌<◌, ◌==◌, ◌∷◌, ◌≡◌, ◌≤◌,
}
use kobox.Fs.Errseq.{
  error_of, is_seen, replacement, errseq_set_loop, errseq_set, errseq_sample, errseq_check,
}

pub replacement_lem :
    (e w : ℕ)
    → 1 ≤ e
    → e ≤ 4095
    → w < u32_mod
    → (replacement e w % 4096 ≡ e)
      × (replacement e w < u32_mod)
      × (replacement e w / 4096 % 2 ≡ 0)
      × (replacement e w / 8192 ≡ (if is_seen w then (w / 8192 + 1) % 524288 else w / 8192))
unfolding replacement
replacement_lem e w l h b = elim (Bool-cases (is_seen w)) [
  | inl s ↦ rw (replacement, s) (omega arith, omega arith, omega arith, omega arith)
  | inr s ↦ rw (replacement, s) (omega arith, omega arith, omega arith, omega arith)
]

-- The word has the error, and nobody has seen it.
abbrev pub IsPending : ℕ → ℕ → Type 0
IsPending e word = (error_of word ≡ e) × (is_seen word ≡ false)

replacement-IsPending : (e w : ℕ) → 1 ≤ e → e ≤ 4095 → w < u32_mod → IsPending e (replacement e w)
replacement-IsPending e w l h b = let r = replacement_lem e w l h b in (r.0, rw (r.2) refl)

IsPending-same : (e w : ℕ) (x : ℕ) → (w == x) ≡ true → IsPending e w → IsPending e x
IsPending-same e w x h p = let same : w ≡ x = ground arith in rw (sym same) p

errseq_set_loop-IsPending :
    (e w : ℕ) (others : List ℕ)
    → 1 ≤ e
    → e ≤ 4095
    → w < u32_mod
    → All (λ other. other < u32_mod) others
    → IsPending e (errseq_set_loop e others w).1
unfolding errseq_set_loop
errseq_set_loop-IsPending e w [] l h b bs = elim (Bool-cases (replacement e w == w)) [
  | inl t ↦ rw t (IsPending-same e (replacement e w) w t (replacement-IsPending e w l h b))
  | inr t ↦ rw t (replacement-IsPending e w l h b)
]
errseq_set_loop-IsPending e w (other ∷ others) l h b bs = elim (Bool-cases (replacement e w == w)) [
  | inl t ↦ rw t (IsPending-same e (replacement e w) w t (replacement-IsPending e w l h b))
  | inr t ↦ elim (Bool-cases (other == w)) [
    | inl t' ↦ rw (t, t') (replacement-IsPending e w l h b)
    | inr t' ↦ elim (Bool-cases (other == replacement e w)) [
      | inl t'' ↦
          let same : replacement e w ≡ other = ground arith in
          rw (t, t', t'', sym same) (replacement-IsPending e w l h b)
      | inr t'' ↦ rw (t, t', t'') (errseq_set_loop-IsPending e other others l h bs.0 bs.1)
    ]
  ]
]

-- Whatever other threads write while errseq_set sets the error -e, from -4095 to -1, the word at its
-- last access has that error, not seen; and a reader that opens the file then takes the cursor 0
-- and is told -e.
pub errseq_set-IsPending :
    (others : List ℕ) (w n : ℕ)
    → suc n ≤ 4095
    → w < u32_mod
    → All (λ other. other < u32_mod) others
    → (word : ℕ) × ((errseq_set others (some w) (negsuc n)).1 ≡ some word)
      × IsPending (suc n) word
      × (errseq_sample (some word) ≡ 0)
      × (errseq_check (some word) 0 ≡ negsuc n)
unfolding errseq_set errseq_sample errseq_check
errseq_set-IsPending others w n h b bs =
    let small : ltb 4095 (suc n) ≡ false = ground arith in
    let p = errseq_set_loop-IsPending (suc n) w others (omega arith) h b bs in
    let word = (errseq_set_loop (suc n) others w).1 in
    let some_word : (word == 0) ≡ false = ground arith in
    (word, rw small refl, p, rw (p.1) refl, rw (some_word, p.0) refl)
