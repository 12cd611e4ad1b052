-- ===== src/Block/Tagset/Held.antt =====
-- A bound tag of src/linux_subsystem/block/block.c, whatever is called in between.
use kobox.Prelude.{
  All, Bool, List, [], ap, arith, get_or, get_or-set_self, inl, inr, pos, set, sym, ℕ, ◌<◌, ◌∙◌,
  ◌∷◌, ◌≡◌, ◌≢◌,
}
use mathlib.Core.Path.{subst}
use kobox.Block.Tagset.{
  HwQueue, Tagsets, uint32_max, alloc_from, tagset_alloc_tag, tagset_bind_request, tagset_request,
}
use kobox.Block.Tagset.Alloc.{
  HwValid, Has, Has-write, alloc_from_lem, alloc_from-HwValid, alloc_from-kept, set-HwValid,
  alloc_at, bind_at, request_at,
}
use kobox.Block.Tagset.Kept.{Call, run, step, Leaves, Holds, step-Holds}

module _ (tag_set i tag request : ℕ) where
  run-Holds :
      (cs : List Call) (ts : Tagsets)
      → All (Leaves tag_set i tag request) cs
      → Holds tag_set i tag request ts
      → Holds tag_set i tag request (run cs ts)
  run-Holds [] ts ok h = h
  run-Holds (c ∷ cs) ts ok h =
      run-Holds cs (step c ts) ok.1 (step-Holds tag_set i tag request c ts ok.0 h)

  -- The tag is bound by the call that follows its allocation.
  bound-Holds :
      (got got' : Bool) (ts ts₁ ts₂ : Tagsets) (q : HwQueue)
      → Has tag_set i ts q
      → HwValid q
      → tagset_alloc_tag got tag_set i ts ≡ (tag, ts₁)
      → tag ≢ uint32_max
      → tagset_bind_request got' tag_set i tag request ts₁ ≡ (pos 0, ts₂)
      → Holds tag_set i tag request ts₂
  bound-Holds got got' ts ts₁ ts₂ q h v a ne b =
      let same = sym (alloc_at tag_set i got ts q h) ∙ a in
      let (rqs, nr) = alloc_from-kept q in
      let after = (alloc_from q).1 in
      let valid = alloc_from-HwValid q v in
      let has : Has tag_set i ts₁ after =
        subst (λ t. Has tag_set i t after) (ap (λ p. p.1) same)
          (Has-write tag_set i ts q (λ p. (alloc_from p).1) h) in
      let below : tag < after.nr_tags = elim (alloc_from_lem q v) [
        | inl (full, e) ↦ absurd (ne (sym (ap (λ p. p.0) same) ∙ ap (λ p. p.0) e))
        | inr (t, low, high, free, e) ↦
            let eq : tag ≡ t = sym (ap (λ p. p.0) same) ∙ ap (λ p. p.0) e in omega arith
      ] in
      record {
        entry = record after { rqs = set after.rqs tag request };
        has =
            subst (λ t. Has tag_set i t (record after { rqs = set after.rqs tag request }))
              (ap (λ p. p.1) (sym (bind_at tag_set i got' tag request ts₁ after has below) ∙ b))
              (Has-write tag_set i ts₁ after (λ p. record p { rqs = set p.rqs tag request }) has);
        valid = set-HwValid after tag request valid;
        below = below;
        held = get_or-set_self after.rqs tag request 0 (omega (arith, valid.table));
      }

  -- A tag that was allocated on a known, well-formed hardware queue and bound to a request is not
  -- handed out again while it is bound: after any calls of the four tag functions, on any tag sets
  -- and queues, of which none binds that tag anew or unbinds the request from it, an allocation
  -- gives another tag, and the request is still found under its own.
  pub tagset_alloc_tag_held :
      (got : Bool) (calls : List Call) (ts ts₁ ts₂ : Tagsets) (q : HwQueue)
      → Has tag_set i ts q
      → HwValid q
      → request ≢ 0
      → tagset_alloc_tag got tag_set i ts ≡ (tag, ts₁)
      → tag ≢ uint32_max
      → tagset_bind_request got tag_set i tag request ts₁ ≡ (pos 0, ts₂)
      → All (Leaves tag_set i tag request) calls
      → ((tagset_alloc_tag got tag_set i (run calls ts₂)).0 ≢ tag)
        × ((tagset_request got tag_set i tag (run calls ts₂)).0 ≡ request)
  tagset_alloc_tag_held got calls ts ts₁ ts₂ q h v nonnull a ne b ok =
      let at = run-Holds calls ts₂ ok (bound-Holds got got ts ts₁ ts₂ q h v a ne b) in
      let end = run calls ts₂ in
      (
        λ again. elim (alloc_from_lem at.entry at.valid) [
          | inl (full, e) ↦ ne (
              sym again
              ∙ ap (λ p. p.0) (alloc_at tag_set i got end at.entry at.has)
              ∙ ap (λ p. p.0) e)
          | inr (t, low, high, free, e) ↦
              let same : tag ≡ t =
                sym again
                ∙ ap (λ p. p.0) (alloc_at tag_set i got end at.entry at.has)
                ∙ ap (λ p. p.0) e in
              nonnull (sym at.held ∙ ap (λ t. get_or at.entry.rqs t 0) same ∙ free)
        ],
        ap (λ p. p.0) (request_at tag_set i got tag end at.entry at.has at.below) ∙ at.held,
      )
