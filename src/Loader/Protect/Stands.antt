-- ===== src/Loader/Protect/Stands.antt =====
-- One section through the loop that protects the sections: its own turn, the later ones while its run
-- is open, and those after its run was closed.
use kobox.Prelude.{
  All, Bool, List, Option, [], ap, arith, get_elem?, inl, inr, none, refl, some, suc, zero, ℕ, ◌+◌,
  ◌<◌, ◌^◌, ◌∙◌, ◌∷◌, ◌≡◌, ◌≢◌, ◌≤◌, ◌⊎◌,
}
use kobox.Elf.Bytes.{ok, parts_of_ok}
use kobox.Loader.Layout.{Place, section_protection}
use kobox.Loader.Layout.Placed.{end, IsApart}
use kobox.Loader.Protect.{
  Call, Run, native_protection, protect_section_run, protect_section, protect_sections,
  protect_last,
}
use kobox.Loader.Protect.Access.{
  access_at, access_at-covered, access_at-before, Boundary-page_floor, mprotect_lem,
}
use kobox.Loader.Protect.Runs.{
  IsRow, AllBased, All-apply, Turn, skipped, started, joined, flushed, IsCurrent, AllCurrent, fresh,
  extended, fresh_bounds, protect_section-Turn, Turn-AllCurrent,
}

module _ (page_bits : ℕ) (wide : page_bits ≤ 40) (grant : Call → Bool) (base : ℕ) where
  abbrev page : ℕ
  page = 2 ^ page_bits

  -- The section `p`, once its turn is over: its run is open, or it has its access for good.
  module _ (p : Place) where
    unfoldable pub Accessible : List Call → Type 0
    Accessible calls =
        (x : ℕ)
        → x < p.size
        → access_at (base + (p.offset + x)) calls
          ≡ some (native_protection (section_protection p.flags))

    data Stands (calls : List Call) (r : Run) : Type 0 where
      open_run :
          r.protection ≡ section_protection p.flags
          → r.start ≤ p.offset
          → end p ≤ r.end
          → Stands calls r
      settled : Accessible calls → end p ≤ r.start → Stands calls r

    flush-Accessible :
        (calls : List Call) (r : Run) {calls' : List Call}
        → Stands calls r
        → protect_section_run grant page base r calls ≡ ok calls'
        → Accessible calls'
    unfolding Accessible protect_section_run
    flush-Accessible calls r {calls'} (open_run same from to) e x b =
        let c = mprotect_lem grant _ _ _ calls e in
        rw c (
          access_at-covered _ _ calls (omega arith) (omega arith)
          ∙ ap (λ a. some (native_protection a)) same)
    flush-Accessible calls r {calls'} (settled a after) e x b =
        let c = mprotect_lem grant _ _ _ calls e in
        rw c (access_at-before _ _ calls (omega arith) ∙ a x b)

    own-Stands :
        (qs : List Place) (run : Option Run) (calls : List Call) {run' : Option Run}
        {calls' : List Call}
        → Turn page_bits wide grant base p run calls run' calls'
        → 0 < p.size
        → p.base ≢ 0
        → end p ≤ 2 ^ 61
        → AllCurrent page_bits wide grant base run (p ∷ qs)
        → (r' : Run) × (run' ≡ some r') × Stands calls' r'
    own-Stands qs run calls (skipped (inl z)) n based low now = absurd (based z)
    own-Stands qs run calls (skipped (inr z)) n based low now = absurd (omega arith)
    own-Stands qs run calls (started _ _) n based low now =
        let (a, b) = fresh_bounds page_bits wide grant base p low in
        (fresh page_bits wide grant base p, refl, open_run refl a b)
    own-Stands qs run calls (flushed _ _ _ _) n based low now =
        let (a, b) = fresh_bounds page_bits wide grant base p low in
        (fresh page_bits wide grant base p, refl, open_run refl a b)
    own-Stands qs none calls (joined _ e _) n based low now = absurd (cc)
    own-Stands qs (some r) calls (joined {r = r'} _ e same) n based low now =
        let (a, b) = fresh_bounds page_bits wide grant base p low in
        let alike : r ≡ r' = cc in
        let from : r'.start ≤ p.offset = rw (← alike) (now.after.0 n) in
        (extended page_bits wide grant base r' p, refl, open_run same from (ground arith))

    extended-Stands :
        (q : Place) (r : Run) (calls : List Call)
        → Stands calls r
        → Stands calls (extended page_bits wide grant base r q)
    extended-Stands q r calls (open_run same from to) = open_run same from (ground arith)
    extended-Stands q r calls (settled a after) = settled a after

    -- Where the run is closed, the section ends before the page of the next one.
    closed_before :
        (q : Place) (qs : List Place) (r : Run) (calls : List Call)
        → (r.protection ≢ section_protection q.flags)
          ⊎ (r.end < (fresh page_bits wide grant base q).start)
        → 0 < q.size
        → end q ≤ 2 ^ 61
        → IsApart page p q
        → IsCurrent page_bits wide grant base r (q ∷ qs)
        → Stands calls r
        → end p ≤ (fresh page_bits wide grant base q).start
    closed_before q qs r calls (inl ne) n low apart now (open_run same from to) =
        Boundary-page_floor page_bits (end p) q.offset wide (omega arith)
          (apart.split (λ e. ne (same ∙ e)))
    closed_before q qs r calls (inr lt) n low apart now (open_run same from to) = omega arith
    closed_before q qs r calls how n low apart now (settled a after) =
        let (m, e) = now.on_page in
        let from = now.after.0 n in
        Boundary-page_floor page_bits (end p) q.offset wide (omega arith)
          (m, omega arith, omega arith)

    later-Stands :
        (q : Place) (qs : List Place) (r : Run) (calls : List Call) {run' : Option Run}
        {calls' : List Call}
        → Turn page_bits wide grant base q (some r) calls run' calls'
        → (0 < q.size → IsApart page p q)
        → (0 < q.size → end q ≤ 2 ^ 61)
        → IsCurrent page_bits wide grant base r (q ∷ qs)
        → Stands calls r
        → (r' : Run) × (run' ≡ some r') × Stands calls' r'
    later-Stands q qs r calls (skipped _) apart low now h = (r, refl, h)
    later-Stands q qs r calls (started _ e) apart low now h = absurd (cc)
    later-Stands q qs r calls (joined {r = r'} n e same) apart low now h =
        let alike : r ≡ r' = cc in
        (extended page_bits wide grant base r' q, refl, extended-Stands q r' calls (rw alike at h))
    later-Stands q qs r calls (flushed {r = r'} n e how f) apart low now h =
        let alike : r ≡ r' = cc in
        let h' : Stands calls r' = rw alike at h in
        let now' : IsCurrent page_bits wide grant base r' (q ∷ qs) = rw alike at now in
        (
          fresh page_bits wide grant base q,
          refl,
          settled (flush-Accessible calls r' h' f)
              (closed_before q qs r' calls how n (low n) (apart n) now' h'),
        )

    -- The loop after the section's turn, and the call after the loop.
    rest-Accessible :
        (qs : List Place) (r : Run) (calls : List Call) {run' : Option Run}
        {calls' calls'' : List Call}
        → protect_sections grant page base qs (some r) calls ≡ ok (run', calls')
        → protect_last grant page base run' calls' ≡ ok calls''
        → All (λ q. 0 < q.size → IsApart page p q) qs
        → IsRow page qs
        → IsCurrent page_bits wide grant base r qs
        → Stands calls r
        → Accessible calls''
    unfolding protect_sections protect_last
    rest-Accessible [] r calls {run'} {calls'} e last apart row now h =
        let same : run' ≡ some r = cc in
        let same' : calls' ≡ calls = cc in flush-Accessible calls r h (rw (same, same') at last)
    rest-Accessible (q ∷ qs) r calls e last (a, apart) row now h =
        let ((run₁, calls₁), turn, next) =
          parts_of_ok (protect_section grant page base q (some r) calls) _ e in
        let t = protect_section-Turn page_bits wide grant base q (some r) calls turn in
        let (r₁, same, h₁) = later-Stands q qs r calls t a row.0 now h in
        let now₁ : IsCurrent page_bits wide grant base r₁ qs =
          rw same at (Turn-AllCurrent page_bits wide grant base q qs (some r) calls t row now) in
        rest-Accessible qs r₁ calls₁ (rw same at next) last apart row.2 now₁ h₁

  -- A section anywhere in the row.
  pub sections-Accessible :
      (qs : List Place) (j : ℕ) (run : Option Run) (calls : List Call) {p : Place}
      {run' : Option Run} {calls' calls'' : List Call}
      → protect_sections grant page base qs run calls ≡ ok (run', calls')
      → protect_last grant page base run' calls' ≡ ok calls''
      → get_elem? qs j ≡ some p
      → 0 < p.size
      → IsRow page qs
      → AllBased qs
      → AllCurrent page_bits wide grant base run qs
      → Accessible p calls''
  unfolding protect_sections
  sections-Accessible [] j run calls e last g n row based now = absurd (cc)
  sections-Accessible (q ∷ qs) zero run calls {p} e last g n row based now =
      let at : q ≡ p = cc in
      let ((run₁, calls₁), turn, next) =
        parts_of_ok (protect_section grant page base q run calls) _ e in
      let t = protect_section-Turn page_bits wide grant base q run calls turn in
      let n' : 0 < q.size = rw at n in
      let (r₁, same, h₁) = own-Stands q qs run calls t n' (based.0 n') (row.0 n') now in
      let now₁ : IsCurrent page_bits wide grant base r₁ qs =
        rw same at (Turn-AllCurrent page_bits wide grant base q qs run calls t row now) in
      rw (← at) (
        rest-Accessible q qs r₁ calls₁ (rw same at next) last (All-apply qs (λ _ f. f n') row.1)
          row.2 now₁ h₁)
  sections-Accessible (q ∷ qs) (suc j) run calls e last g n row based now =
      let ((run₁, calls₁), turn, next) =
        parts_of_ok (protect_section grant page base q run calls) _ e in
      let t = protect_section-Turn page_bits wide grant base q run calls turn in
      sections-Accessible qs j run₁ calls₁ next last g n row.2 based.1
        (Turn-AllCurrent page_bits wide grant base q qs run calls t row now)
