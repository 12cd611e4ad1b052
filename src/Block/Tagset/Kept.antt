-- ===== src/Block/Tagset/Kept.antt =====
-- What the tag calls of src/linux_subsystem/block/block.c leave of a bound tag.
use kobox.Prelude.{
  ==_iff, Bool, Bool-cases, List, [], ap, arith, get_or, get_or-set_ne, inl, inr, leb, length-set,
  refl, set, sym, true, ℕ, ◌<◌, ◌==◌, ◌∙◌, ◌∷◌, ◌≡◌, ◌≢◌, ◌⊎◌,
}
use kobox.Keyed
use kobox.Block.Tagset.{
  HwQueue, Tagsets, tagset_key, tagset_state_find, tagset_state_for, hw_at, write_hw, alloc_from,
  tagset_alloc_tag, tagset_bind_request, tagset_unbind_request, tagset_request,
}
use kobox.Block.Tagset.Alloc.{
  HwValid, Has, Has-write, alloc_from-HwValid, alloc_from-kept, set-HwValid, alloc_at, bind_at,
  unbind_at,
}
use kobox.Block.Tagset.Elsewhere.{
  with_node, IsElsewhere, alloc-IsElsewhere, request_elsewhere, bind-IsElsewhere,
  unbind-IsElsewhere,
}

-- A call, with what calloc does, the tag set and the hardware queue.
pub data Call : Type 0 where
  allocate look_up : Bool → ℕ → ℕ → Call
  bind unbind : Bool → ℕ → ℕ → ℕ → ℕ → Call

abbrev pub step : Call → Tagsets → Tagsets
step (allocate got s j) ts = (tagset_alloc_tag got s j ts).1
step (look_up got s j) ts = (tagset_request got s j 0 ts).1
step (bind got s j t request) ts = (tagset_bind_request got s j t request ts).1
step (unbind got s j t request) ts = tagset_unbind_request got s j t request ts

abbrev pub run : List Call → Tagsets → Tagsets
run [] ts = ts
run (c ∷ cs) ts = run cs (step c ts)

module _ (tag_set i tag request : ℕ) where
  -- The call binds nothing to the tag, and does not unbind the request from it.
  abbrev pub Leaves : Call → Type 0
  Leaves (allocate got s j) = Unit
  Leaves (look_up got s j) = Unit
  Leaves (bind got s j t r) = (s ≢ tag_set) ⊎ (j ≢ i) ⊎ (t ≢ tag)
  Leaves (unbind got s j t r) = (s ≢ tag_set) ⊎ (j ≢ i) ⊎ (t ≢ tag) ⊎ (r ≢ request)

  pub record Holds (ts : Tagsets) : Type 0 where
    pub entry : HwQueue
    pub has : Has tag_set i ts entry
    pub valid : HwValid entry
    pub below : tag < entry.nr_tags
    pub held : get_or entry.rqs tag 0 ≡ request

  Holds-Has : (ts ts' : Tagsets) (h : Holds ts) → Has tag_set i ts' h.entry → Holds ts'
  Holds-Has ts ts' h has = record {
    entry = h.entry;
    has = has;
    valid = h.valid;
    below = h.below;
    held = h.held;
  }

  -- A write to the entry of the queue that keeps the tag's request.
  Holds-write :
      (ts : Tagsets) (f : HwQueue → HwQueue) (h : Holds ts)
      → HwValid (f h.entry)
      → (f h.entry).nr_tags ≡ h.entry.nr_tags
      → get_or (f h.entry).rqs tag 0 ≡ request
      → Holds (write_hw tag_set i f ts)
  Holds-write ts f h valid same kept = record {
    entry = f h.entry;
    has = Has-write tag_set i ts h.entry f h.has;
    valid = valid;
    below = omega (arith, h.below, same);
    held = kept;
  }

  -- A write to another entry.
  Holds-elsewhere :
      (ts : Tagsets) (s j : ℕ) (f : HwQueue → HwQueue)
      → (s ≢ tag_set) ⊎ (j ≢ i)
      → Holds ts
      → Holds (write_hw s j f ts)
  unfolding write_hw tagset_state_find
  Holds-elsewhere ts s j f away h =
      let t = h.has.tagset in
      let written =
        Keyed.find-modify tagset_key s tag_set (λ t. record t { hw = set t.hw j (f (hw_at t j)) })
          ts (λ t. refl) in
      elim (Bool-cases (tag_set == s)) [
        | inr e ↦ Holds-Has ts _ h (record {
          tagset = t;
          found = ground (arith, h.has.found, written);
          in_array = h.has.in_array;
          within = h.has.within;
          entry = h.has.entry;
        })
        | inl e ↦
            let apart : j ≢ i = ground arith in
            Holds-Has ts _ h (record {
              tagset = record t { hw = set t.hw j (f (hw_at t j)) };
              found = ground (arith, h.has.found, written);
              in_array = omega (arith, h.has.in_array, length-set t.hw j (f (hw_at t j)));
              within = h.has.within;
              entry = get_or-set_ne t.hw (f (hw_at t j)) _ apart ∙ h.has.entry;
            })
      ]

  Holds-with_node : (got : Bool) (s : ℕ) (ts : Tagsets) → Holds ts → Holds (with_node got s ts)
  unfolding tagset_state_for tagset_state_find Keyed.find
  Holds-with_node got s ts h = Holds-Has ts _ h (record {
    tagset = h.has.tagset;
    found = ground (arith, h.has.found);
    in_array = h.has.in_array;
    within = h.has.within;
    entry = h.has.entry;
  })

  Holds-IsElsewhere :
      (s j : ℕ) (got : Bool) (ts ts' : Tagsets)
      → IsElsewhere s j got ts ts'
      → (s ≢ tag_set) ⊎ (j ≢ i)
      → Holds ts
      → Holds ts'
  Holds-IsElsewhere s j got ts ts' (inl e) away h = rw e (Holds-with_node got s ts h)
  Holds-IsElsewhere s j got ts ts' (inr (f, e)) away h =
      rw e (Holds-elsewhere (with_node got s ts) s j f away (Holds-with_node got s ts h))

  -- A call on the queue itself, with a tag that it has, or not.
  Holds-allocate :
      (got : Bool) (ts : Tagsets) → Holds ts → Holds (tagset_alloc_tag got tag_set i ts).1
  Holds-allocate got ts h =
      let (rqs, nr) = alloc_from-kept h.entry in
      rw (alloc_at tag_set i got ts h.entry h.has) (
        Holds-write ts (λ q. (alloc_from q).1) h (alloc_from-HwValid h.entry h.valid) nr
          (ap (λ l. get_or l tag 0) rqs ∙ h.held))

  Holds-set :
      (ts : Tagsets) (t r : ℕ) (h : Holds ts)
      → t ≢ tag
      → Holds (write_hw tag_set i (λ q. record q { rqs = set q.rqs t r }) ts)
  Holds-set ts t r h apart =
      Holds-write ts (λ q. record q { rqs = set q.rqs t r }) h (set-HwValid h.entry t r h.valid)
        refl (get_or-set_ne h.entry.rqs r 0 apart ∙ h.held)

  beyond_bind :
      (got : Bool) (t r : ℕ) (ts : Tagsets) (q : HwQueue)
      → Has tag_set i ts q
      → leb q.nr_tags t ≡ true
      → (tagset_bind_request got tag_set i t r ts).1 ≡ ts
  unfolding tagset_bind_request tagset_state_for
  beyond_bind got t r ts q h lt = ground (arith, h.found, h.within, h.entry)

  beyond_unbind :
      (got : Bool) (t r : ℕ) (ts : Tagsets) (q : HwQueue)
      → Has tag_set i ts q
      → leb q.nr_tags t ≡ true
      → tagset_unbind_request got tag_set i t r ts ≡ ts
  unfolding tagset_unbind_request tagset_state_for
  beyond_unbind got t r ts q h lt = ground (arith, h.found, h.within, h.entry)

  Holds-bind :
      (got : Bool) (t r : ℕ) (ts : Tagsets)
      → t ≢ tag
      → Holds ts
      → Holds (tagset_bind_request got tag_set i t r ts).1
  Holds-bind got t r ts apart h = elim (Bool-cases (leb h.entry.nr_tags t)) [
    | inl e ↦ rw (beyond_bind got t r ts h.entry h.has e) h
    | inr e ↦
        rw (bind_at tag_set i got t r ts h.entry h.has (ground arith)) (Holds-set ts t r h apart)
  ]

  Holds-unbind :
      (got : Bool) (t r : ℕ) (ts : Tagsets)
      → (t ≢ tag) ⊎ (r ≢ request)
      → Holds ts
      → Holds (tagset_unbind_request got tag_set i t r ts)
  Holds-unbind got t r ts apart h = elim (Bool-cases (leb h.entry.nr_tags t)) [
    | inl e ↦ rw (beyond_unbind got t r ts h.entry h.has e) h
    | inr e ↦ elim (Bool-cases (get_or h.entry.rqs t 0 == r)) [
      | inr m ↦ rw (unbind_at tag_set i got t r ts h.entry h.has (ground arith), m) h
      | inl m ↦
          rw (unbind_at tag_set i got t r ts h.entry h.has (ground arith), m)
            (Holds-set ts t 0 h (elim apart [
              | inl a ↦ a
              | inr a ↦
                  λ z. a (sym ((==_iff _ _).0 m) ∙ ap (λ k. get_or h.entry.rqs k 0) z ∙ h.held)
            ]))
    ]
  ]

  near_or_far : (s j : ℕ) → ((s ≡ tag_set) × (j ≡ i)) ⊎ ((s ≢ tag_set) ⊎ (j ≢ i))
  near_or_far s j = elim (Bool-cases (s == tag_set)) [
    | inr e ↦ inr (inl (ground arith))
    | inl e ↦ elim (Bool-cases (j == i)) [
      | inl e' ↦ inl (ground arith, ground arith)
      | inr e' ↦ inr (inr (ground arith))
    ]
  ]

  pub step-Holds : (c : Call) (ts : Tagsets) → Leaves c → Holds ts → Holds (step c ts)
  step-Holds (allocate got s j) ts ok h = elim (near_or_far s j) [
    | inl (a, b) ↦ rw (a, b) (Holds-allocate got ts h)
    | inr far ↦ Holds-IsElsewhere s j got ts _ (alloc-IsElsewhere got s j ts) far h
  ]
  step-Holds (look_up got s j) ts ok h =
      rw (request_elsewhere got s j ts 0) (Holds-with_node got s ts h)
  step-Holds (bind got s j t r) ts ok h = elim (near_or_far s j) [
    | inl (a, b) ↦ rw (a, b) (Holds-bind got t r ts (near ok a b) h)
    | inr far ↦ Holds-IsElsewhere s j got ts _ (bind-IsElsewhere got s j ts t r) far h
  ]
    where
      near : {P : Type 0} → (s ≢ tag_set) ⊎ (j ≢ i) ⊎ P → s ≡ tag_set → j ≡ i → P
      near (inl n) a b = absurd (n a)
      near (inr (inl n)) a b = absurd (n b)
      near (inr (inr p)) a b = p
  step-Holds (unbind got s j t r) ts ok h = elim (near_or_far s j) [
    | inl (a, b) ↦ rw (a, b) (Holds-unbind got t r ts (near ok a b) h)
    | inr far ↦ Holds-IsElsewhere s j got ts _ (unbind-IsElsewhere got s j ts t r) far h
  ]
    where
      near : {P : Type 0} → (s ≢ tag_set) ⊎ (j ≢ i) ⊎ P → s ≡ tag_set → j ≡ i → P
      near (inl n) a b = absurd (n a)
      near (inr (inl n)) a b = absurd (n b)
      near (inr (inr p)) a b = p
