-- ===== src/Fs/Errseq.antt =====
-- The write-back error sequences of src/linux_subsystem/fs/fs.c. A word has an error below 2^12, the
-- mark that it was seen at bit 12, and above it a counter; masks are remainders, and `|` with bits
-- that are 0 is a sum. What other threads do to a word during a call comes as an argument.
pub mod Pending
pub mod Reports
mod Tests
use kobox.Prelude.{
  Bool, List, Option, [], if◌then◌else◌, ltb, neg, negsuc, none, pos, some, suc, u32_mod, zero, ℕ,
  ℤ, ◌%◌, ◌*◌, ◌+◌, ◌/◌, ◌==◌, ◌∷◌,
}

abbrev pub error_of : ℕ → ℕ
error_of word = word % 4096

abbrev pub is_seen : ℕ → Bool
is_seen word = word / 4096 % 2 == 1

-- The word that a call tries to write; the error is the magnitude.
pub replacement : ℕ → ℕ → ℕ
replacement error old =
    let word = old / 8192 * 8192 + error in if is_seen old then (word + 8192) % u32_mod else word

-- The loop, by the values that others write between its accesses: what it returns, and the word at
-- its last access. After the last of the values the exchange succeeds.
pub errseq_set_loop : ℕ → List ℕ → ℕ → ℕ × ℕ
unfolding replacement
errseq_set_loop error [] old =
    let word = replacement error old in if word == old then (old, old) else (old, word)
errseq_set_loop error (observed ∷ others) old =
    let word = replacement error old in
    let again = errseq_set_loop error others observed in
    if word == old
    then (old, old)
    else if observed == old
    then (old, word)
    else if observed == word
    then (observed, observed)
    else again

-- `none` is a sequence that is NULL.
pub errseq_set : List ℕ → Option ℕ → ℤ → ℕ × Option ℕ
unfolding errseq_set_loop
errseq_set others none error = (0, none)
errseq_set others (some word) (pos n) = (word, some word)
errseq_set others (some word) (negsuc n) =
    if ltb 4095 (suc n)
    then (word, some word)
    else let r = errseq_set_loop (suc n) others word in (r.0, some (r.1))

pub errseq_sample : Option ℕ → ℕ
errseq_sample none = 0
errseq_sample (some word) = if is_seen word then word else 0

pub errseq_check : Option ℕ → ℕ → ℤ
errseq_check none since = pos 0
errseq_check (some word) since = if word == since then pos 0 else neg (error_of word)

-- The status, the sequence and the cursor. The exchange fails when another thread has written the
-- word `raced`.
pub errseq_check_and_advance : Option ℕ → Option ℕ → Option ℕ → ℤ × Option ℕ × Option ℕ
errseq_check_and_advance raced none since = (pos 0, none, since)
errseq_check_and_advance raced (some word) none = (pos 0, some word, none)
errseq_check_and_advance raced (some word) (some since) =
    if word == since
    then (pos 0, some word, some since)
    else let seen = if is_seen word then word else word + 4096 in
      (
        neg (error_of seen),
        some (if seen == word then word else elim raced [ none ↦ seen | some other ↦ other ]),
        some seen,
      )

-- The words of an address space and of an open file that the functions read and write.
pub record AddressSpace : Type 0 where
  pub wb_err : ℕ
  pub flags : ℕ

pub record OpenFile : Type 0 where
  pub mapping : Option AddressSpace
  pub wb_err : ℕ

pub filemap_set_wb_err : List ℕ → Option AddressSpace → ℤ → Option AddressSpace
unfolding errseq_set
filemap_set_wb_err others none error = none
filemap_set_wb_err others (some m) (pos zero) = some m
filemap_set_wb_err others (some m) error = some (record m {
  wb_err = elim (errseq_set others (some m.wb_err) error).1 [ none ↦ m.wb_err | some word ↦ word ];
})

abbrev word_or : ℕ → Option ℕ → ℕ
word_or word none = word
word_or word (some other) = other

pub file_check_and_advance_wb_err : Option ℕ → Option OpenFile → ℤ × Option OpenFile
unfolding errseq_check errseq_check_and_advance
file_check_and_advance_wb_err raced none = (neg 22, none)
file_check_and_advance_wb_err raced (some f) = elim f.mapping [
  | none ↦ (neg 22, some f)
  | some m ↦
      let cleared = record m { flags = m.flags / 4 * 4 } in
      elim (errseq_check (some m.wb_err) f.wb_err) [
        | pos zero ↦ (pos 0, some (record f { mapping = some cleared }))
        | _ ↦
            let r = errseq_check_and_advance raced (some m.wb_err) (some f.wb_err) in
            (
              r.0,
              some (record {
                mapping = some (record cleared { wb_err = word_or m.wb_err (r.1) });
                wb_err = word_or f.wb_err (r.2);
              }),
            )
      ]
]
