-- ===== src/Loader/Layout/Rebased.antt =====
-- The layout of the sections does not depend on the addresses that they are copied to.
use kobox.Prelude.{List, get_elem?, some, ℕ, ◌<◌, ◌≡◌}
use kobox.Loader.Layout.{Place, Layout}
use kobox.Loader.Layout.Placed.{IsLaid}

abbrev pub with_base : ℕ → Place → Place
with_base base p = record p { base = base }

-- The same places, but for their bases.
abbrev pub Rebases : List Place → List Place → Type 0
Rebases xs ys =
    (j : ℕ) (p : Place)
    → get_elem? ys j ≡ some p
    → (q : Place) × (base : ℕ) × (get_elem? xs j ≡ some q) × (p ≡ with_base base q)

pub rebased-IsLaid :
    (page i : ℕ) (l : Layout) (ys : List Place)
    → Rebases l.sections ys
    → IsLaid page i l
    → IsLaid page i (record l { sections = ys })
rebased-IsLaid page i l ys r h = record {
  low = h.low;
  inside = λ j {p} g n.
      let (q, b, old, e) = r j p g in let n' : 0 < q.size = rw e at n in rw e (h.inside j old n');
  aligned = λ j {p} g n.
      let (q, b, old, e) = r j p g in let n' : 0 < q.size = rw e at n in rw e (h.aligned j old n');
  closed = λ j {p} g n.
      let (q, b, old, e) = r j p g in let n' : 0 < q.size = rw e at n in rw e (h.closed j old n');
  apart = λ j k {a} {b} g g' n n' lt.
      let (q, c, old, e) = r j a g in
      let (q', c', old', e') = r k b g' in
      let m : 0 < q.size = rw e at n in
      let m' : 0 < q'.size = rw e' at n' in
      let both = h.apart j k old old' m m' lt in
      rw (e, e') (record { ordered = both.ordered; split = both.split });
}
