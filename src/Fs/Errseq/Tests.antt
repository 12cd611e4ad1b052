-- ===== src/Fs/Errseq/Tests.antt =====
-- A sequence whose error EIO was seen, and a second thread that sets ENOSPC.
use kobox.Prelude.{[], arith, neg, negsuc, none, refl, some, ℕ, ◌∷◌, ◌≡◌}
use kobox.Fs.Errseq.{errseq_set, errseq_sample, errseq_check, file_check_and_advance_wb_err}
use kobox.Fs.Errseq.Pending.{IsPending, errseq_set-IsPending}
use kobox.Fs.Errseq.Reports.{
  failed, told, happen_all, last_error, Tells, errseq_check_and_advance-Tells,
}

errseq_check_and_advance-Tells_example :
    Tells 4101
      (happen_all (failed (neg 28) ∷ told 0 ∷ failed (neg 5) ∷ []) 4101)
      (last_error (failed (neg 28) ∷ told 0 ∷ failed (neg 5) ∷ []) 0)
errseq_check_and_advance-Tells_example =
    errseq_check_and_advance-Tells 4101 (failed (neg 28) ∷ told 0 ∷ failed (neg 5) ∷ [])
      (omega arith) refl (omega arith)

last_of_two : last_error (failed (neg 28) ∷ told 0 ∷ failed (neg 5) ∷ []) 0 ≡ 5
unfolding last_error
last_of_two = refl

errseq_set-IsPending_example :
    (word : ℕ) × ((errseq_set (28 ∷ []) (some 4101) (negsuc 4)).1 ≡ some word)
    × IsPending 5 word
    × (errseq_sample (some word) ≡ 0)
    × (errseq_check (some word) 0 ≡ negsuc 4)
errseq_set-IsPending_example =
    errseq_set-IsPending (28 ∷ []) 4101 4 (omega arith) (omega arith) (omega arith, tt)

-- A file that has not seen its mapping's error, and the flags of the mapping.
told_at_close :
    (file_check_and_advance_wb_err none
      (some (record { mapping = some (record { wb_err = 5; flags = 7 }); wb_err = 0 }))).0
    ≡ neg 5
unfolding file_check_and_advance_wb_err
told_at_close = refl
