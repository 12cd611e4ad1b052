-- ===== src/Keyed.antt =====
-- The singly linked lists that the subsystems keep: a head pointer, nodes found by one key field,
-- new nodes put in front, and removal through a pointer to the link. A node is only reached
-- through its list, so the list is a list of records. Used for the queue, disk and tag set states
-- of src/linux_subsystem/block/block.c and the port states of src/linux_subsystem/usb/port_state.c.
use mathlib.Core.Option
use kobox.Prelude.{List, Option, [], arith, if◌then◌else◌, none, refl, some, ℕ, ◌==◌, ◌∷◌, ◌≡◌, ◌≢◌}

module _ {ℓ} {A : Type ℓ} (key : A → ℕ) where
  unfoldable pub find : ℕ → List A → Option A
  find k [] = none
  find k (x ∷ xs) = if key x == k then some x else find k xs

  -- `f` is what the code writes through the pointer that the search returned.
  unfoldable pub modify : ℕ → (A → A) → List A → List A
  modify k f [] = []
  modify k f (x ∷ xs) = if key x == k then f x ∷ xs else x ∷ modify k f xs

  unfoldable pub remove : ℕ → List A → List A
  remove k [] = []
  remove k (x ∷ xs) = if key x == k then xs else x ∷ remove k xs

  -- No two nodes have one key.
  abbrev pub IsUnique : List A → Type ℓ
  IsUnique [] = Unit
  IsUnique (x ∷ xs) = (find (key x) xs ≡ none) × IsUnique xs

  pub key-find : (k : ℕ) (xs : List A) {a : A} → find k xs ≡ some a → key a ≡ k
  unfolding find
  key-find k [] h = absurd (cc)
  key-find k (x ∷ xs) {a} h = ground (arith, key-find k xs {a = a})

  pub find-modify :
      (k j : ℕ) (f : A → A) (xs : List A)
      → ((a : A) → key (f a) ≡ key a)
      → find j (modify k f xs) ≡ (if j == k then Option.map f (find k xs) else find j xs)
  unfolding find modify
  find-modify k j f [] keeps = ground arith
  find-modify k j f (x ∷ xs) keeps = ground (arith, keeps x, find-modify k j f xs keeps)

  pub find-remove_ne : (k j : ℕ) (xs : List A) → j ≢ k → find j (remove k xs) ≡ find j xs
  unfolding find remove
  find-remove_ne k j [] h = refl
  find-remove_ne k j (x ∷ xs) h = ground (arith, find-remove_ne k j xs h)

  pub find-remove_self : (k : ℕ) (xs : List A) → IsUnique xs → find k (remove k xs) ≡ none
  unfolding find remove
  find-remove_self k [] u = refl
  find-remove_self k (x ∷ xs) u = ground (arith, find-remove_self k xs u.1)

  pub find-remove-none : (k j : ℕ) (xs : List A) → find j xs ≡ none → find j (remove k xs) ≡ none
  unfolding find remove
  find-remove-none k j [] h = refl
  find-remove-none k j (x ∷ xs) h = ground (arith, find-remove-none k j xs)

  find-modify-none :
      (k j : ℕ) (f : A → A) (xs : List A)
      → ((a : A) → key (f a) ≡ key a)
      → find j xs ≡ none
      → find j (modify k f xs) ≡ none
  unfolding find modify
  find-modify-none k j f [] keeps h = refl
  find-modify-none k j f (x ∷ xs) keeps h = ground (arith, keeps x, find-modify-none k j f xs keeps)

  pub remove-IsUnique : (k : ℕ) (xs : List A) → IsUnique xs → IsUnique (remove k xs)
  unfolding remove
  remove-IsUnique k [] u = tt
  remove-IsUnique k (x ∷ xs) u =
      ground (arith, remove-IsUnique k xs u.1, find-remove-none k (key x) xs u.0)

  pub modify-IsUnique :
      (k : ℕ) (f : A → A) (xs : List A)
      → ((a : A) → key (f a) ≡ key a)
      → IsUnique xs
      → IsUnique (modify k f xs)
  unfolding modify
  modify-IsUnique k f [] keeps u = tt
  modify-IsUnique k f (x ∷ xs) keeps u =
      ground (
        arith,
        keeps x,
        modify-IsUnique k f xs keeps u.1,
        find-modify-none k (key x) f xs keeps u.0,
      )

  pub modify-modify :
      (k : ℕ) (f g : A → A) (xs : List A)
      → ((a : A) → key (f a) ≡ key a)
      → modify k g (modify k f xs) ≡ modify k (λ a. g (f a)) xs
  unfolding modify
  modify-modify k f g [] keeps = refl
  modify-modify k f g (x ∷ xs) keeps = ground (arith, keeps x, modify-modify k f g xs keeps)
