-- ===== src/Usb/Release/Filters.antt =====
-- Lists from which src/linux_subsystem/usb/usb.c has unlinked records.
use kobox.Prelude.{Bool, Bool-cases, List, [], false, inl, inr, refl, true, ◌&&◌, ◌||◌, ◌∷◌, ◌≡◌}
use kobox.Usb.State.{reject}

unfoldable pub any {ℓ} : {A : Type ℓ} → (A → Bool) → List A → Bool
any p [] = false
any p (x ∷ xs) = p x || any p xs

pub reject-cong {ℓ} :
    {A : Type ℓ} {p q : A → Bool} (h : (x : A) → p x ≡ q x) (xs : List A)
    → reject p xs ≡ reject q xs
unfolding reject
reject-cong h [] = refl
reject-cong h (x ∷ xs) = rw (h x, reject-cong h xs) refl

pub reject-reject {ℓ} :
    {A : Type ℓ} (p q : A → Bool) (xs : List A)
    → reject p (reject q xs) ≡ reject (λ x. q x || p x) xs
unfolding reject
reject-reject p q [] = refl
reject-reject p q (x ∷ xs) = elim (Bool-cases (q x)) [
  | inl e ↦ rw (e, reject-reject p q xs) refl
  | inr e ↦ rw (e, reject-reject p q xs) refl
]

pub reject-false {ℓ} :
    {A : Type ℓ} {p : A → Bool} (h : (x : A) → p x ≡ false) (xs : List A) → reject p xs ≡ xs
unfolding reject
reject-false h [] = refl
reject-false h (x ∷ xs) = rw (h x, reject-false h xs) refl

pub any-false {ℓ} :
    {A : Type ℓ} {p : A → Bool} (h : (x : A) → p x ≡ false) (xs : List A) → any p xs ≡ false
unfolding any
any-false h [] = refl
any-false h (x ∷ xs) = rw (h x, any-false h xs) refl

or_swap : (a b c : Bool) → (a || (b || c)) ≡ (b || (a || c))
or_swap true true c = refl
or_swap true false c = refl
or_swap false b c = refl

or_assoc : (a b c : Bool) → ((a || b) || c) ≡ (a || (b || c))
or_assoc true b c = refl
or_assoc false b c = refl

-- A search before and one after a removal are one.
pub any-reject {ℓ} :
    {A : Type ℓ} (p q t : A → Bool) (xs : List A)
    → (any (λ x. p x && t x) xs || any (λ x. q x && t x) (reject p xs))
      ≡ any (λ x. (p x || q x) && t x) xs
unfolding any reject
any-reject p q t [] = refl
any-reject p q t (x ∷ xs) = elim (Bool-cases (p x)) [
  | inl e ↦ rw (e, or_assoc (t x), any-reject p q t xs) refl
  | inr e ↦
      rw
        (
          e,
          or_swap (any (λ y. p y && t y) xs) (q x && t x) (any (λ y. q y && t y) (reject p xs)),
          any-reject p q t xs,
        )
        refl
]

pub or_four : (a b c d : Bool) → ((a || b) || (c || d)) ≡ ((a || c) || (b || d))
or_four true b c d = refl
or_four false true true d = refl
or_four false true false d = refl
or_four false false c d = refl
