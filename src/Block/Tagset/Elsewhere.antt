-- ===== src/Block/Tagset/Elsewhere.antt =====
-- What a tag call of src/linux_subsystem/block/block.c does to the list, seen from another entry.
use kobox.Prelude.{
  Bool, Bool-cases, Option, Option-cases, arith, get_or, inl, inr, leb, refl, set, ℕ, ◌==◌, ◌≡◌,
  ◌⊎◌,
}
use kobox.Block.Tagset.{
  HwQueue, Tagset, Tagsets, queue_max, tagset_state_for, hw_at, write_hw, alloc_from,
  tagset_alloc_tag, tagset_bind_request, tagset_unbind_request, tagset_request,
}

-- A new node in front of the list.
abbrev pub with_node : Bool → ℕ → Tagsets → Tagsets
with_node got s ts = (tagset_state_for got s ts).1

-- What a call does to another entry.
abbrev pub IsElsewhere : ℕ → ℕ → Bool → Tagsets → Tagsets → Type 0
IsElsewhere s j got ts ts' =
    (ts' ≡ with_node got s ts)
    ⊎ ((f : HwQueue → HwQueue) × (ts' ≡ write_hw s j f (with_node got s ts)))

module _ (got : Bool) (s j : ℕ) (ts : Tagsets) where
  abbrev node : Option Tagset × Tagsets
  node = tagset_state_for got s ts

  pub alloc-IsElsewhere : IsElsewhere s j got ts (tagset_alloc_tag got s j ts).1
  unfolding tagset_alloc_tag
  alloc-IsElsewhere = elim (Option-cases node.0) [
    | inl e ↦ rw (tagset_alloc_tag, e) (inl refl)
    | inr (t, e) ↦ elim (Bool-cases (leb queue_max j)) [
      | inl o ↦ rw (tagset_alloc_tag, e, o) (inl refl)
      | inr o ↦ rw (tagset_alloc_tag, e, o) (inr ((λ q. (alloc_from q).1), refl))
    ]
  ]

  pub request_elsewhere : (t : ℕ) → (tagset_request got s j t ts).1 ≡ node.1
  unfolding tagset_request
  request_elsewhere t = ground arith

  pub bind-IsElsewhere : (t r : ℕ) → IsElsewhere s j got ts (tagset_bind_request got s j t r ts).1
  unfolding tagset_bind_request
  bind-IsElsewhere t r = elim (Option-cases node.0) [
    | inl e ↦ rw (tagset_bind_request, e) (inl refl)
    | inr (x, e) ↦ elim (Bool-cases (leb queue_max j)) [
      | inl o ↦ rw (tagset_bind_request, e, o) (inl refl)
      | inr o ↦ elim (Bool-cases (leb (hw_at x j).nr_tags t)) [
        | inl l ↦ rw (tagset_bind_request, e, o, l) (inl refl)
        | inr l ↦
            rw (tagset_bind_request, e, o, l) (inr ((λ q. record q { rqs = set q.rqs t r }), refl))
      ]
    ]
  ]

  pub unbind-IsElsewhere : (t r : ℕ) → IsElsewhere s j got ts (tagset_unbind_request got s j t r ts)
  unfolding tagset_unbind_request
  unbind-IsElsewhere t r = elim (Option-cases node.0) [
    | inl e ↦ rw (tagset_unbind_request, e) (inl refl)
    | inr (x, e) ↦ elim (Bool-cases (leb queue_max j)) [
      | inl o ↦ rw (tagset_unbind_request, e, o) (inl refl)
      | inr o ↦ elim (Bool-cases (leb (hw_at x j).nr_tags t)) [
        | inl l ↦ rw (tagset_unbind_request, e, o, l) (inl refl)
        | inr l ↦ elim (Bool-cases (get_or (hw_at x j).rqs t 0 == r)) [
          | inl m ↦
              rw (tagset_unbind_request, e, o, l, m)
                (inr ((λ q. record q { rqs = set q.rqs t 0 }), refl))
          | inr m ↦ rw (tagset_unbind_request, e, o, l, m) (inl refl)
        ]
      ]
    ]
  ]
