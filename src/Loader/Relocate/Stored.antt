-- ===== src/Loader/Relocate/Stored.antt =====
-- What a relocation stores, in src/loader/module_loader.c.
use kobox.Prelude.{
  List, arith, get_or, get_or-set_ne, get_or-set_self, inl, length, length-set, refl, set, u32_mod,
  u64_mod, ℕ, ◌%◌, ◌+◌, ◌/◌, ◌<◌, ◌∙◌, ◌≡◌, ◌≤◌, ◌⊎◌,
}
use kobox.Elf.Bytes.{u32_at, u64_at}
use kobox.Loader.Relocate.{write_u32le, write_u64le}

pub length-write_u32le : (bytes : List ℕ) (p v : ℕ) → length (write_u32le bytes p v) ≡ length bytes
unfolding write_u32le
length-write_u32le bytes p v =
    length-set _ _ _ ∙ length-set _ _ _ ∙ length-set _ _ _ ∙ length-set _ _ _

pub length-write_u64le : (bytes : List ℕ) (p v : ℕ) → length (write_u64le bytes p v) ≡ length bytes
unfolding write_u64le
length-write_u64le bytes p v = length-write_u32le _ _ _ ∙ length-write_u32le _ _ _

-- Four writes in a row, and what is read at and around them.
module _ (bytes : List ℕ) (p a b c d : ℕ) where
  abbrev one : List ℕ
  one = set bytes p a

  abbrev two : List ℕ
  two = set (set bytes p a) (p + 1) b

  abbrev three : List ℕ
  three = set (set (set bytes p a) (p + 1) b) (p + 2) c

  abbrev four : List ℕ
  four = set (set (set (set bytes p a) (p + 1) b) (p + 2) c) (p + 3) d

  length-two : length two ≡ length bytes
  length-two = length-set one (p + 1) b ∙ length-set bytes p a

  length-three : length three ≡ length bytes
  length-three = length-set two (p + 2) c ∙ length-two

  outside : (j : ℕ) → (j < p) ⊎ (p + 4 ≤ j) → get_or four j 0 ≡ get_or bytes j 0
  outside j h =
      get_or-set_ne three {i = p + 3} {j = j} d 0 (ground arith)
      ∙ get_or-set_ne two {i = p + 2} {j = j} c 0 (ground arith)
      ∙ get_or-set_ne one {i = p + 1} {j = j} b 0 (ground arith)
      ∙ get_or-set_ne bytes {i = p} {j = j} a 0 (ground arith)

  module _ (h : p + 4 ≤ length bytes) where
    first : get_or four p 0 ≡ a
    first =
        get_or-set_ne three {i = p + 3} {j = p} d 0 (omega arith)
        ∙ get_or-set_ne two {i = p + 2} {j = p} c 0 (omega arith)
        ∙ get_or-set_ne one {i = p + 1} {j = p} b 0 (omega arith)
        ∙ get_or-set_self bytes p a 0 (omega arith)

    second : get_or four (p + 1) 0 ≡ b
    second =
        get_or-set_ne three {i = p + 3} {j = p + 1} d 0 (omega arith)
        ∙ get_or-set_ne two {i = p + 2} {j = p + 1} c 0 (omega arith)
        ∙ get_or-set_self one (p + 1) b 0 (let e = length-set bytes p a in omega arith)

    third : get_or four (p + 2) 0 ≡ c
    third =
        get_or-set_ne three {i = p + 3} {j = p + 2} d 0 (omega arith)
        ∙ get_or-set_self two (p + 2) c 0 (let e = length-two in omega arith)

    fourth : get_or four (p + 3) 0 ≡ d
    fourth = get_or-set_self three (p + 3) d 0 (let e = length-three in omega arith)

pub get_or-write_u32le-outside :
    (bytes : List ℕ) (p v j : ℕ)
    → (j < p) ⊎ (p + 4 ≤ j)
    → get_or (write_u32le bytes p v) j 0 ≡ get_or bytes j 0
unfolding write_u32le
get_or-write_u32le-outside bytes p v j h = outside bytes p _ _ _ _ j h

pub u32_at-write_u32le :
    (bytes : List ℕ) (p v : ℕ)
    → p + 4 ≤ length bytes
    → v < u32_mod
    → u32_at (write_u32le bytes p v) p ≡ v
unfolding write_u32le
u32_at-write_u32le bytes p v h small =
    rw
      (
        first bytes p _ _ _ _ h,
        second bytes p _ _ _ _ h,
        third bytes p _ _ _ _ h,
        fourth bytes p _ _ _ _ h,
      )
      (omega arith)

u32_at-write_u32le-outside :
    (bytes : List ℕ) (p v : ℕ) → u32_at (write_u32le bytes (p + 4) v) p ≡ u32_at bytes p
u32_at-write_u32le-outside bytes p v =
    rw
      (
        get_or-write_u32le-outside bytes (p + 4) v p (inl (omega arith)),
        get_or-write_u32le-outside bytes (p + 4) v (p + 1) (inl (omega arith)),
        get_or-write_u32le-outside bytes (p + 4) v (p + 2) (inl (omega arith)),
        get_or-write_u32le-outside bytes (p + 4) v (p + 3) (inl (omega arith)),
      )
      refl

pub u64_at-write_u64le :
    (bytes : List ℕ) (p v : ℕ)
    → p + 8 ≤ length bytes
    → v < u64_mod
    → u64_at (write_u64le bytes p v) p ≡ v
unfolding write_u64le
u64_at-write_u64le bytes p v h small =
    let low = write_u32le bytes p (v % u32_mod) in
    rw
      (
        u32_at-write_u32le-outside low p (v / u32_mod),
        u32_at-write_u32le bytes p (v % u32_mod) (omega arith) (omega arith),
        u32_at-write_u32le low (p + 4) (v / u32_mod)
            (let e = length-write_u32le bytes p (v % u32_mod) in omega arith) (omega arith),
      )
      (omega arith)

pub get_or-write_u64le-outside :
    (bytes : List ℕ) (p v j : ℕ)
    → (j < p) ⊎ (p + 8 ≤ j)
    → get_or (write_u64le bytes p v) j 0 ≡ get_or bytes j 0
unfolding write_u64le
get_or-write_u64le-outside bytes p v j h =
    get_or-write_u32le-outside (write_u32le bytes p (v % u32_mod)) (p + 4) (v / u32_mod) j
      (ground arith)
    ∙ get_or-write_u32le-outside bytes p (v % u32_mod) j (ground arith)
