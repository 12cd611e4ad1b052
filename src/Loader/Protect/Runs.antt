-- ===== src/Loader/Protect/Runs.antt =====
-- What each turn of the loop that protects the sections does to the open run.
use kobox.Prelude.{
  ==_iff, All, Bool, Bool-cases, List, Option, [], add64, arith, false, if◌then◌else◌, inl, inr,
  leb, ltb, none, refl, some, ℕ, ◌&&◌, ◌*◌, ◌/◌, ◌<◌, ◌==◌, ◌^◌, ◌||◌, ◌∷◌, ◌≡◌, ◌≢◌, ◌≤◌, ◌⊎◌,
}
use kobox.Elf.Bytes.{Result, ok, ◌>>=◌, parts_of_ok}
use kobox.Loader.Layout.{Place, align_up64, section_protection}
use kobox.Loader.Layout.Align.{align_up64_bounds}
use kobox.Loader.Layout.Placed.{end, IsApart}
use kobox.Loader.Protect.{Call, Run, page_floor, protect_section_run, protect_section}
use kobox.Loader.Protect.Access.{page_floor_eq, page_floor_le}

-- Sections in order and apart, and below 2^61; the empty ones do not count.
abbrev pub IsRow : ℕ → List Place → Type 0
IsRow page [] = Unit
IsRow page (q ∷ qs) =
    (0 < q.size → end q ≤ 2 ^ 61)
    × All (λ q'. 0 < q.size → 0 < q'.size → IsApart page q q') qs
    × IsRow page qs

pub All-apply :
    {P Q : Place → Type 0} (qs : List Place) → ((q : Place) → P q → Q q) → All P qs → All Q qs
All-apply [] f h = tt
All-apply (q ∷ qs) f (h, hs) = (f q h, All-apply qs f hs)

abbrev pub AllBased : List Place → Type 0
AllBased qs = All (λ q. 0 < q.size → q.base ≢ 0) qs

-- What follows starts at `start` or later.
abbrev pub After : ℕ → List Place → Type 0
After start qs = All (λ q. 0 < q.size → start ≤ q.offset) qs

module _ (page_bits : ℕ) (wide : page_bits ≤ 40) (grant : Call → Bool) (base : ℕ) where
  abbrev pub page : ℕ
  page = 2 ^ page_bits

  -- The run that the section starts.
  abbrev pub fresh : Place → Run
  fresh q = record {
    start = page_floor q.offset page;
    end = align_up64 (add64 q.offset q.size) page;
    protection = section_protection q.flags;
  }

  abbrev pub extended : Run → Place → Run
  extended r q = record r { end = if ltb r.end (fresh q).end then (fresh q).end else r.end }

  pub fresh_bounds :
      (q : Place) → end q ≤ 2 ^ 61 → ((fresh q).start ≤ q.offset) × (end q ≤ (fresh q).end)
  fresh_bounds q b =
      let whole : add64 q.offset q.size ≡ end q = omega arith in
      let (up, _) = align_up64_bounds page_bits (end q) wide (omega arith) in
      (page_floor_le page_bits q.offset wide (omega arith), rw whole up)

  -- What the loop's body does with a section.
  pub data Turn (q : Place) (run : Option Run) (calls : List Call)
      : Option Run → List Call → Type 0 where
    skipped : (q.base ≡ 0) ⊎ (q.size ≡ 0) → Turn q run calls run calls
    started : 0 < q.size → run ≡ none → Turn q run calls (some (fresh q)) calls
    joined :
        {r : Run}
        → 0 < q.size
        → run ≡ some r
        → r.protection ≡ section_protection q.flags
        → Turn q run calls (some (extended r q)) calls
    flushed :
        {r : Run} {calls' : List Call}
        → 0 < q.size
        → run ≡ some r
        → (r.protection ≢ section_protection q.flags) ⊎ (r.end < (fresh q).start)
        → protect_section_run grant page base r calls ≡ ok calls'
        → Turn q run calls (some (fresh q)) calls'

  abbrev start_fresh : Place → List Call → Result (Option Run × List Call)
  start_fresh q calls = ok (some (fresh q), calls)

  flush-Turn :
      (q : Place) (r : Run) (calls : List Call) {run' : Option Run} {calls' : List Call}
      → 0 < q.size
      → (r.protection ≢ section_protection q.flags) ⊎ (r.end < (fresh q).start)
      → (protect_section_run grant page base r calls >>= start_fresh q) ≡ ok (run', calls')
      → Turn q (some r) calls run' calls'
  flush-Turn q r calls {run'} {calls'} more apart e =
      let (k, flushed', rest) =
        parts_of_ok (protect_section_run grant page base r calls) (start_fresh q) e in
      let same : run' ≡ some (fresh q) = cc in
      let same' : k ≡ calls' = cc in rw same (flushed more refl apart (rw same' at flushed'))

  unlike :
      (r f : Run)
      → (r.protection == f.protection && leb f.start r.end) ≡ false
      → (r.protection ≢ f.protection) ⊎ (r.end < f.start)
  unlike r f h = elim (Bool-cases (r.protection == f.protection)) [
    | inl y ↦ inr (ground arith)
    | inr n ↦ inl (λ e. cc (n, (==_iff _ _).1 e))
  ]

  pub protect_section-Turn :
      (q : Place) (run : Option Run) (calls : List Call) {run' : Option Run} {calls' : List Call}
      → protect_section grant page base q run calls ≡ ok (run', calls')
      → Turn q run calls run' calls'
  unfolding protect_section
  protect_section-Turn q none calls {run'} {calls'} e =
      elim (Bool-cases (q.base == 0 || q.size == 0)) [
        | inl z ↦
            let empty : (q.base ≡ 0) ⊎ (q.size ≡ 0) = ground arith in
            let d : ok (none, calls) ≡ ok (run', calls') = rw (protect_section, z) at e in
            let same : none ≡ run' = cc in
            let same' : calls ≡ calls' = cc in rw (← same, ← same') (skipped empty)
        | inr z ↦
            let d : ok (some (fresh q), calls) ≡ ok (run', calls') = rw (protect_section, z) at e in
            let same : some (fresh q) ≡ run' = cc in
            let same' : calls ≡ calls' = cc in rw (← same, ← same') (started (ground arith) refl)
      ]
  protect_section-Turn q (some r) calls {run'} {calls'} e =
      elim (Bool-cases (q.base == 0 || q.size == 0)) [
        | inl z ↦
            let empty : (q.base ≡ 0) ⊎ (q.size ≡ 0) = ground arith in
            let d : ok (some r, calls) ≡ ok (run', calls') = rw (protect_section, z) at e in
            let same : some r ≡ run' = cc in
            let same' : calls ≡ calls' = cc in rw (← same, ← same') (skipped empty)
        | inr z ↦
            elim (Bool-cases
              (r.protection == section_protection q.flags && leb (fresh q).start r.end)) [
                | inl y ↦
                    let d : ok (some (extended r q), calls) ≡ ok (run', calls') =
                      rw (protect_section, z, y) at e in
                    let same : some (extended r q) ≡ run' = cc in
                    let same' : calls ≡ calls' = cc in
                    let alike : r.protection ≡ section_protection q.flags = ground arith in
                    rw (← same, ← same') (joined (ground arith) refl alike)
                | inr y ↦
                    let apart : (r.protection ≢ section_protection q.flags)
                        ⊎ (r.end < (fresh q).start) =
                      unlike r (fresh q) y in
                    flush-Turn q r calls (ground arith) apart (rw (protect_section, z, y) at e)
              ]
      ]

  -- The run starts on a page, and nothing that follows starts before it.
  pub record IsCurrent (r : Run) (rest : List Place) : Type 0 where
    pub on_page : (m : ℕ) × (r.start ≡ m * page)
    pub after : After r.start rest

  abbrev pub AllCurrent : Option Run → List Place → Type 0
  AllCurrent none rest = Unit
  AllCurrent (some r) rest = IsCurrent r rest

  After-apart :
      (q : Place) (qs : List Place)
      → 0 < q.size
      → end q ≤ 2 ^ 61
      → All (λ q'. 0 < q.size → 0 < q'.size → IsApart page q q') qs
      → After (fresh q).start qs
  After-apart q [] n b h = tt
  After-apart q (q' ∷ qs) n b (h, hs) =
      let (below, _) = fresh_bounds q b in
      (λ n'. let a = (h n n').ordered in omega arith, After-apart q qs n b hs)

  fresh-IsCurrent :
      (q : Place) (qs : List Place) → 0 < q.size → IsRow page (q ∷ qs) → IsCurrent (fresh q) qs
  fresh-IsCurrent q qs n (low, apart, _) =
      let b = low n in
      record {
        on_page = (q.offset / 2 ^ page_bits, page_floor_eq page_bits q.offset wide (omega arith));
        after = After-apart q qs n b apart;
      }

  pub Turn-AllCurrent :
      (q : Place) (qs : List Place) (run : Option Run) (calls : List Call) {run' : Option Run}
      {calls' : List Call}
      → Turn q run calls run' calls'
      → IsRow page (q ∷ qs)
      → AllCurrent run (q ∷ qs)
      → AllCurrent run' qs
  Turn-AllCurrent q qs none calls (skipped _) row now = tt
  Turn-AllCurrent q qs (some r) calls (skipped _) row now = record {
    on_page = now.on_page;
    after = now.after.1;
  }
  Turn-AllCurrent q qs run calls (started n _) row now = fresh-IsCurrent q qs n row
  Turn-AllCurrent q qs run calls (flushed n _ _ _) row now = fresh-IsCurrent q qs n row
  Turn-AllCurrent q qs none calls (joined n e _) row now = absurd (cc)
  Turn-AllCurrent q qs (some r) calls (joined {r = r'} n e _) row now =
      let same : r ≡ r' = cc in rw (← same) (record { on_page = now.on_page; after = now.after.1 })
