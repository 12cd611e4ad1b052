-- ===== src/Loader/Shims/First.antt =====
-- The first symbol of a name in a list of symbols, which is what the hash index stands for; and the
-- cache's growth at its end.
use mathlib.Core.Option
use kobox.Prelude.{
  List, Option, Option-cases, [], arith, get_elem?, if◌then◌else◌, inl, inr, length, none, refl,
  some, suc, zero, ℕ, ◌++◌, ◌+◌, ◌-◌, ◌<◌, ◌∷◌, ◌≡◌,
}
use kobox.Loader.Shims.{LinuxSymbol, has_name, slot_matches}

unfoldable pub first_index : List LinuxSymbol → List ℕ → Option ℕ
first_index [] name = none
first_index (s ∷ ss) name =
    if has_name name s then some 0 else Option.map (λ i. i + 1) (first_index ss name)

pub length-append {ℓ} : {A : Type ℓ} (xs ys : List A) → length (xs ++ ys) ≡ length xs + length ys
length-append [] ys = omega arith
length-append (x ∷ xs) ys = omega (arith, length-append xs ys)

pub get_elem?-append_lt {ℓ} :
    {A : Type ℓ} (xs ys : List A) (i : ℕ) → i < length xs → get_elem? (xs ++ ys) i ≡ get_elem? xs i
get_elem?-append_lt [] ys i h = absurd (omega arith)
get_elem?-append_lt (x ∷ xs) ys zero h = refl
get_elem?-append_lt (x ∷ xs) ys (suc i) h = get_elem?-append_lt xs ys i (omega arith)

pub get_elem?-append_length {ℓ} :
    {A : Type ℓ} (xs ys : List A) (y : A) → get_elem? (xs ++ y ∷ ys) (length xs) ≡ some y
get_elem?-append_length [] ys y = refl
get_elem?-append_length (x ∷ xs) ys y = get_elem?-append_length xs ys y

pub slot_matches-append :
    (c : List LinuxSymbol) (s : LinuxSymbol) (stored : ℕ) (name : List ℕ)
    → stored - 1 < length c
    → slot_matches (c ++ s ∷ []) stored name ≡ slot_matches c stored name
unfolding slot_matches
slot_matches-append c s stored name h =
    rw (get_elem?-append_lt c (s ∷ []) (stored - 1) h, slot_matches)

pub slot_matches-append_length :
    (c : List LinuxSymbol) (s : LinuxSymbol) (name : List ℕ)
    → slot_matches (c ++ s ∷ []) (length c + 1) name ≡ has_name name s
unfolding slot_matches
slot_matches-append_length c s name =
    let e : length c + 1 - 1 ≡ length c = omega arith in
    rw (e, get_elem?-append_length c [] s, slot_matches)

pub first_index-append_some :
    (c d : List LinuxSymbol) (name : List ℕ) {i : ℕ}
    → first_index c name ≡ some i
    → first_index (c ++ d) name ≡ some i
unfolding first_index
first_index-append_some [] d name h = absurd (cc)
first_index-append_some (s ∷ c) d name {i} h = elim (Option-cases (first_index c name)) [
  | inl e ↦ ground (arith, e)
  | inr (j, e) ↦ ground (arith, e, first_index-append_some c d name {i = j} e)
]

pub first_index-append_none :
    (c : List LinuxSymbol) (s : LinuxSymbol) (name : List ℕ)
    → first_index c name ≡ none
    → first_index (c ++ s ∷ []) name ≡ (if has_name name s then some (length c) else none)
unfolding first_index
first_index-append_none [] s name h = ground arith
first_index-append_none (x ∷ c) s name h = ground (arith, first_index-append_none c s name)
