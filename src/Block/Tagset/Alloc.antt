-- ===== src/Block/Tagset/Alloc.antt =====
-- Which tags kb_block_subsystem_tagset_alloc_tag hands out, and how requests are bound to them.
use kobox.Prelude.{
  ==_iff, Bool, Bool-cases, Option-cases, ap, arith, get_or, get_or-set_self, if◌then◌else◌, inl,
  inr, leb, length, length-set, none, pos, refl, set, some, ℕ, ◌+◌, ◌-◌, ◌<◌, ◌==◌, ◌↔◌, ◌∙◌, ◌≡◌,
  ◌≢◌, ◌≤◌, ◌⊎◌,
}
use kobox.Keyed
use kobox.Block.Tagset.Scan.{scan_tags-some, scan_tags-none}
use kobox.Block.Tagset.{
  HwQueue, Tagset, Tagsets, tagset_key, tagset_state_find, tagset_state_for, queue_max, uint32_max,
  hw_at, write_hw, next_after, scan_tags, alloc_from, tagset_alloc_tag, tagset_bind_request,
  tagset_unbind_request, tagset_request,
}

-- What holds of a hardware queue's entry from its creation on.
pub record HwValid (q : HwQueue) : Type 0 where
  pub some_tags : 2 ≤ q.nr_tags
  pub table : q.nr_tags ≤ length q.rqs
  pub small : q.nr_tags < uint32_max
  pub next_low : 1 ≤ q.next_tag
  pub next_high : q.next_tag < q.nr_tags

-- Every tag that the loop may hand out is held by a request.
abbrev pub IsFull : HwQueue → Type 0
IsFull q = (u : ℕ) → 1 ≤ u → u < q.nr_tags → get_or q.rqs u 0 ≢ 0

scan_all :
    (q : HwQueue)
    → HwValid q
    → scan_tags q.rqs q.nr_tags (q.nr_tags - 1) q.next_tag ≡ none
    → IsFull q
scan_all q v h u low high = elim (Bool-cases (leb q.next_tag u)) [
  | inl e ↦ covers (inl (ground arith, ground arith))
  | inr e ↦ covers (inr (ground arith))
]
  where
    covers :
        ((q.next_tag ≤ u) × (u < q.next_tag + (q.nr_tags - 1)))
          ⊎ (u + q.nr_tags < 1 + (q.nr_tags - 1) + q.next_tag)
        → get_or q.rqs u 0 ≢ 0
    covers =
        scan_tags-none q.rqs q.nr_tags (omega arith) v.some_tags (q.nr_tags - 1) q.next_tag u h
          v.next_low (omega arith) low high

-- If the queue is full `alloc_from` answers UINT32_MAX and changes nothing, and otherwise it gives a tag between 1 and `nr_tags` that no request holds.
pub alloc_from_lem :
    (q : HwQueue)
    → HwValid q
    → ((IsFull q × (alloc_from q ≡ (uint32_max, q)))
        ⊎ ((tag : ℕ) × (1 ≤ tag)
            × (tag < q.nr_tags)
            × (get_or q.rqs tag 0 ≡ 0)
            × (alloc_from q ≡ (tag, record q { next_tag = next_after q.nr_tags tag }))))
unfolding alloc_from
alloc_from_lem q v = elim (Option-cases (scan_tags q.rqs q.nr_tags (q.nr_tags - 1) q.next_tag)) [
  | inl e ↦ inl (scan_all q v e, ground arith)
  | inr (tag, e) ↦
      let found =
        scan_tags-some q.rqs q.nr_tags (omega arith) v.some_tags (q.nr_tags - 1) q.next_tag e in
      inr (tag, found.0, found.1, found.2, ground arith)
]

pub alloc_from-HwValid : (q : HwQueue) → HwValid q → HwValid (alloc_from q).1
unfolding alloc_from
alloc_from-HwValid q v = elim (alloc_from_lem q v) [
  | inl (_, e) ↦ rw e v
  | inr (tag, low, high, free, e) ↦ rw e (ground arith)
]

pub set-HwValid :
    (q : HwQueue) (tag request : ℕ) → HwValid q → HwValid (record q { rqs = set q.rqs tag request })
set-HwValid q tag request v = omega (arith, length-set q.rqs tag request)

pub alloc_from-kept :
    (q : HwQueue) → ((alloc_from q).1.rqs ≡ q.rqs) × ((alloc_from q).1.nr_tags ≡ q.nr_tags)
unfolding alloc_from
alloc_from-kept q = (ground arith, ground arith)

module _ (tag_set i : ℕ) where
  -- The tag set is known, and its hardware queue `i` is `q`.
  pub record Has (ts : Tagsets) (q : HwQueue) : Type 0 where
    pub tagset : Tagset
    pub found : tagset_state_find ts tag_set ≡ some tagset
    pub in_array : i < length tagset.hw
    pub within : i < queue_max
    pub entry : hw_at tagset i ≡ q

  pub Has-write :
      (ts : Tagsets) (q : HwQueue) (f : HwQueue → HwQueue)
      → Has ts q
      → Has (write_hw tag_set i f ts) (f q)
  unfolding write_hw tagset_state_find
  Has-write ts q f h = record {
    tagset = record h.tagset { hw = set h.tagset.hw i (f (hw_at h.tagset i)) };
    found = ground (
      arith,
      h.found,
      Keyed.find-modify tagset_key tag_set tag_set
          (λ t. record t { hw = set t.hw i (f (hw_at t i)) }) ts (λ t. refl),
    );
    in_array = omega (arith, h.in_array, length-set h.tagset.hw i (f (hw_at h.tagset i)));
    within = h.within;
    entry = get_or-set_self h.tagset.hw i (f (hw_at h.tagset i)) _ h.in_array ∙ ap f h.entry;
  }

  pub alloc_at :
      (got_node : Bool) (ts : Tagsets) (q : HwQueue)
      → Has ts q
      → tagset_alloc_tag got_node tag_set i ts
        ≡ ((alloc_from q).0, write_hw tag_set i (λ p. (alloc_from p).1) ts)
  unfolding tagset_alloc_tag tagset_state_for
  alloc_at got_node ts q h = ground (arith, h.found, h.within, h.entry)

  pub bind_at :
      (got_node : Bool) (tag request : ℕ) (ts : Tagsets) (q : HwQueue)
      → Has ts q
      → tag < q.nr_tags
      → tagset_bind_request got_node tag_set i tag request ts
        ≡ (pos 0, write_hw tag_set i (λ p. record p { rqs = set p.rqs tag request }) ts)
  unfolding tagset_bind_request tagset_state_for
  bind_at got_node tag request ts q h lt = ground (arith, h.found, h.within, h.entry)

  pub unbind_at :
      (got_node : Bool) (tag request : ℕ) (ts : Tagsets) (q : HwQueue)
      → Has ts q
      → tag < q.nr_tags
      → tagset_unbind_request got_node tag_set i tag request ts ≡ (
          if get_or q.rqs tag 0 == request
          then write_hw tag_set i (λ p. record p { rqs = set p.rqs tag 0 }) ts
          else ts)
  unfolding tagset_unbind_request tagset_state_for
  unbind_at got_node tag request ts q h lt = ground (arith, h.found, h.within, h.entry)

  pub request_at :
      (got_node : Bool) (tag : ℕ) (ts : Tagsets) (q : HwQueue)
      → Has ts q
      → tag < q.nr_tags
      → tagset_request got_node tag_set i tag ts ≡ (get_or q.rqs tag 0, ts)
  unfolding tagset_request tagset_state_for
  request_at got_node tag ts q h lt = ground (arith, h.found, h.within, h.entry)

  -- On a known, well-formed hardware queue the allocation returns UINT32_MAX exactly when every
  -- tag from 1 up to `nr_tags` is bound to a request; so the circular search misses no free tag.
  pub tagset_alloc_tag-IsFull_iff :
      (got_node : Bool) (ts : Tagsets) (q : HwQueue)
      → Has ts q
      → HwValid q
      → ((tagset_alloc_tag got_node tag_set i ts).0 ≡ uint32_max) ↔ IsFull q
  tagset_alloc_tag-IsFull_iff got_node ts q h v =
      rw (alloc_at got_node ts q h) (elim (alloc_from_lem q v) [
        | inl (full, e) ↦ ((λ _. full), (λ _. ap (λ p. p.0) e))
        | inr (tag, low, high, free, e) ↦ (
          (λ top. absurd (omega (arith, v.small, ap (λ p. p.0) e, top))),
          (λ full. absurd (full tag low high free)),
        )
      ])

  -- When a request that holds a tag is unbound, the queue has a free tag again: the next
  -- allocation does not return UINT32_MAX.
  pub tagset_unbind_frees :
      (got_node : Bool) (ts : Tagsets) (q : HwQueue) (tag request : ℕ)
      → Has ts q
      → HwValid q
      → 1 ≤ tag
      → tag < q.nr_tags
      → get_or q.rqs tag 0 ≡ request
      → (tagset_alloc_tag got_node tag_set i
          (tagset_unbind_request got_node tag_set i tag request ts)).0
        ≢ uint32_max
  tagset_unbind_frees got_node ts q tag request h v low high holds full =
      (tagset_alloc_tag-IsFull_iff got_node _ freed has (set-HwValid q tag 0 v)).0 full tag low high
        (get_or-set_self q.rqs tag 0 0 (omega (arith, v.table)))
    where
      freed : HwQueue
      freed = record q { rqs = set q.rqs tag 0 }

      has : Has (tagset_unbind_request got_node tag_set i tag request ts) freed
      has =
          rw (unbind_at got_node tag request ts q h high, (==_iff _ _).1 holds)
            (Has-write ts q (λ p. record p { rqs = set p.rqs tag 0 }) h)
