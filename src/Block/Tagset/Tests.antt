-- ===== src/Block/Tagset/Tests.antt =====
-- Tag sets at concrete states: a fresh one at address 7, whose queue 2 hands out its first tags.
use kobox.Prelude.{List, [], arith, refl, true, ◌↔◌, ◌∷◌, ◌≡◌, ◌≢◌}
use kobox.Keyed
use kobox.Block.Tagset.{
  HwQueue, Tagsets, alloc_from, fresh_hw, fresh_tagset, tagset_state_find, tagset_alloc_tag,
  tagset_bind_request, tagset_unbind_request, tagset_request, uint32_max, scan_tags,
}
use kobox.Block.Tagset.Alloc.{
  Has, HwValid, IsFull, tagset_alloc_tag-IsFull_iff, tagset_unbind_frees,
}
use kobox.Block.Tagset.Kept.{Call, allocate, look_up, bind, unbind, run}
use kobox.Block.Tagset.Held.{tagset_alloc_tag_held}

abbrev one_set : Tagsets
one_set = fresh_tagset 7 ∷ []

fresh_hw-HwValid : HwValid fresh_hw
fresh_hw-HwValid = omega arith

one_set-Has : Has 7 2 one_set fresh_hw
unfolding tagset_state_find Keyed.find
one_set-Has = record {
  tagset = fresh_tagset 7;
  found = refl;
  in_array = omega arith;
  within = omega arith;
  entry = refl;
}

abbrev allocated : Tagsets
allocated = (tagset_alloc_tag true 7 2 one_set).1

abbrev bound : Tagsets
bound = (tagset_bind_request true 7 2 1 99 allocated).1

-- The next tag to another request, a wrong unbind of the first, and another tag set.
abbrev calls : List Call
calls =
    allocate true 7 2
    ∷ bind true 7 2 2 5
    ∷ unbind true 7 2 1 5
    ∷ allocate true 9 0
    ∷ look_up true 7 2
    ∷ []

tagset_alloc_tag-IsFull_iff_example :
    ((tagset_alloc_tag true 7 2 one_set).0 ≡ uint32_max) ↔ IsFull fresh_hw
tagset_alloc_tag-IsFull_iff_example =
    tagset_alloc_tag-IsFull_iff 7 2 true one_set fresh_hw one_set-Has fresh_hw-HwValid

tagset_alloc_tag_held_example :
    ((tagset_alloc_tag true 7 2 (run calls bound)).0 ≢ 1)
    × ((tagset_request true 7 2 1 (run calls bound)).0 ≡ 99)
unfolding tagset_alloc_tag alloc_from tagset_bind_request Keyed.modify Keyed.find scan_tags
tagset_alloc_tag_held_example =
    tagset_alloc_tag_held 7 2 1 99 true calls one_set allocated bound fresh_hw one_set-Has
      fresh_hw-HwValid (omega arith) refl (omega arith) refl (ground arith)

abbrev last_bound : HwQueue
last_bound = record { nr_tags = 2; active_queues = 1; rqs = 0 ∷ 5 ∷ []; next_tag = 1 }

abbrev full_set : Tagsets
full_set = record (fresh_tagset 7) { hw = last_bound ∷ [] } ∷ []

full_set-Has : Has 7 0 full_set last_bound
unfolding tagset_state_find Keyed.find
full_set-Has = record {
  tagset = record (fresh_tagset 7) { hw = last_bound ∷ [] };
  found = refl;
  in_array = omega arith;
  within = omega arith;
  entry = refl;
}

full_set_refuses : (tagset_alloc_tag true 7 0 full_set).0 ≡ uint32_max
unfolding tagset_alloc_tag alloc_from Keyed.find scan_tags
full_set_refuses = refl

tagset_unbind_frees_example :
    (tagset_alloc_tag true 7 0 (tagset_unbind_request true 7 0 1 5 full_set)).0 ≢ uint32_max
tagset_unbind_frees_example =
    tagset_unbind_frees 7 0 true full_set last_bound 1 5 full_set-Has (omega arith) (omega arith)
      (omega arith) refl
