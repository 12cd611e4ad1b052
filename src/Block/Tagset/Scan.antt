-- ===== src/Block/Tagset/Scan.antt =====
-- The search for a free tag in kb_block_subsystem_tagset_alloc_tag.
use kobox.Prelude.{
  Bool-cases, List, arith, get_or, if◌then◌else◌, inc32, inl, inr, leb, none, some, suc, u32_mod,
  zero, ℕ, ◌+◌, ◌<◌, ◌==◌, ◌||◌, ◌≡◌, ◌≢◌, ◌≤◌, ◌⊎◌,
}
use kobox.Block.Tagset.{scan_tags}

module _ (rqs : List ℕ) (limit : ℕ) (small : limit < u32_mod) (some_tags : 2 ≤ limit) where
  pub scan_tags-some :
      (rounds tag : ℕ) {t : ℕ}
      → scan_tags rqs limit rounds tag ≡ some t
      → (1 ≤ t) × (t < limit) × (get_or rqs t 0 ≡ 0)
  unfolding scan_tags
  scan_tags-some zero tag h = absurd (cc)
  scan_tags-some (suc rounds) tag {t} h =
      ground (
        arith,
        scan_tags-some rounds (inc32 (if tag == 0 || leb limit tag then 1 else tag)) {t = t},
      )

  -- From `tag` on the loop looks at `rounds` tags, going round from `limit` to 1.
  pub scan_tags-none :
      (rounds tag u : ℕ)
      → scan_tags rqs limit rounds tag ≡ none
      → 1 ≤ tag
      → tag ≤ limit
      → 1 ≤ u
      → u < limit
      → ((tag ≤ u) × (u < tag + rounds)) ⊎ (u + limit < 1 + rounds + tag)
      → get_or rqs u 0 ≢ 0
  unfolding scan_tags
  scan_tags-none zero tag u h a b c e f = absurd (omega arith)
  scan_tags-none (suc rounds) tag u h a b c e f = elim (Bool-cases (leb limit tag)) [
    | inl over ↦ elim (Bool-cases (u == 1)) [
      | inl first ↦ ground arith
      | inr later ↦
          scan_tags-none rounds 2 u (ground arith) (omega arith) (omega arith) c e
            (inl (ground arith, ground arith))
    ]
    | inr inside ↦ elim (Bool-cases (u == tag)) [
      | inl here ↦ ground arith
      | inr later ↦
          scan_tags-none rounds (inc32 tag) u (ground arith) (ground arith) (ground arith) c e
            (ground arith)
    ]
  ]
