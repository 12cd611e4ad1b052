-- ===== src/Elf/Bytes.antt =====
-- Reads of src/loader/elf_reader.c. The file is the list of its bytes; a read behind its end, which
-- C leaves undefined, is the result `fault`.
use kobox.Prelude.{
  Bool, Bool-cases, List, Option, Status, [], arith, false, get_elem?, get_or, if◌then◌else◌, inl,
  inr, leb, length, ltb, none, not, refl, some, suc, true, zero, ℕ, ◌*◌, ◌+◌, ◌-◌, ◌<◌, ◌==◌, ◌^◌,
  ◌∷◌, ◌≡◌, ◌≤◌, ◌⊎◌,
}

pub data Result {ℓ} (A : Type ℓ) : Type ℓ where
  ok : A → Result A
  err : Status → Result A
  fault : Result A

infixl 5 ◌>>=◌ ◌>>◌
abbrev pub ◌>>=◌ {ℓ κ} : {A : Type ℓ} {B : Type κ} → Result A → (A → Result B) → Result B
ok a >>= f = f a
err e >>= f = err e
fault >>= f = fault

abbrev pub ◌>>◌ {ℓ} : {B : Type ℓ} → Result (Unit {0}) → Result B → Result B
m >> k = m >>= λ _. k

-- A chain ends well when its first part does and the rest does.
pub parts_of_ok {ℓ κ} :
    {A : Type ℓ} {B : Type κ} {last : B} (first : Result A) (next : A → Result B)
    → (first >>= next) ≡ ok last
    → (a : A) × (first ≡ ok a) × (next a ≡ ok last)
parts_of_ok (err e) next done = absurd (cc)
parts_of_ok fault next done = absurd (cc)
parts_of_ok (ok a) next done = (a, refl, done)

-- `if (!test) return e;`
abbrev pub guard : Bool → Status → Result (Unit {0})
guard true e = ok tt
guard false e = err e

unfoldable pub byte : List ℕ → ℕ → Result ℕ
byte bytes i = elim (get_elem? bytes i) [ none ↦ fault | some b ↦ ok b ]

-- The bytes are below 256, so the shifted parts that the code joins by `|` are added.
unfoldable pub read_u16le : List ℕ → ℕ → Result ℕ
read_u16le bytes i = do b₀ ← byte bytes i; b₁ ← byte bytes (i + 1); ok (b₀ + b₁ * 2 ^ 8)

unfoldable pub read_u32le : List ℕ → ℕ → Result ℕ
read_u32le bytes i = do
  b₀ ← byte bytes i
  b₁ ← byte bytes (i + 1)
  b₂ ← byte bytes (i + 2)
  b₃ ← byte bytes (i + 3)
  ok (b₀ + b₁ * 2 ^ 8 + b₂ * 2 ^ 16 + b₃ * 2 ^ 24)

unfoldable pub read_u64le : List ℕ → ℕ → Result ℕ
read_u64le bytes i = do
  low ← read_u32le bytes i
  high ← read_u32le bytes (i + 4)
  ok (low + high * 2 ^ 32)

unfoldable pub range_fits : ℕ → ℕ → ℕ → Bool
range_fits size offset count = if ltb size offset then false else not (ltb (size - offset) count)

-- The loop of bounded_section_name with `rounds` bytes left before the table's end: the bytes from
-- `start` up to the first NUL, or `none` where the table ends first.
pub name_from : List ℕ → ℕ → ℕ → Result (Option (List ℕ))
name_from bytes start zero = ok none
name_from bytes start (suc rounds) =
    let rest = name_from bytes (start + 1) rounds in
    do
      c ← byte bytes start
      if c == 0
          then ok (some [])
          else (rest >>= λ name. ok (elim name [ none ↦ none | some cs ↦ some (c ∷ cs) ]))

-- The string table is the `strings_size` bytes from `base` on. A C string is the list of its bytes.
unfoldable pub bounded_section_name : List ℕ → ℕ → ℕ → ℕ → Result (List ℕ)
unfolding name_from
bounded_section_name bytes base strings_size offset = if leb strings_size offset then ok [] else (do
  name ← name_from bytes (base + offset) (strings_size - offset)
  ok (elim name [ none ↦ [] | some cs ↦ cs ]))

-- The values that the reads give inside the file.
abbrev pub u16_at : List ℕ → ℕ → ℕ
u16_at bytes i = get_or bytes i 0 + get_or bytes (i + 1) 0 * 2 ^ 8

abbrev pub u32_at : List ℕ → ℕ → ℕ
u32_at bytes i =
    get_or bytes i 0
    + get_or bytes (i + 1) 0 * 2 ^ 8
    + get_or bytes (i + 2) 0 * 2 ^ 16
    + get_or bytes (i + 3) 0 * 2 ^ 24

abbrev pub u64_at : List ℕ → ℕ → ℕ
u64_at bytes i = u32_at bytes i + u32_at bytes (i + 4) * 2 ^ 32

pub byte-ok : (bytes : List ℕ) (i : ℕ) → i < length bytes → byte bytes i ≡ ok (get_or bytes i 0)
unfolding byte
byte-ok [] i h = absurd (omega arith)
byte-ok (b ∷ bytes) zero h = refl
byte-ok (b ∷ bytes) (suc i) h = byte-ok bytes i (omega arith)

pub read_u16le-ok :
    (bytes : List ℕ) (i : ℕ) → i + 2 ≤ length bytes → read_u16le bytes i ≡ ok (u16_at bytes i)
unfolding read_u16le
read_u16le-ok bytes i h = rw (byte-ok bytes i (omega arith), byte-ok bytes (i + 1) (omega arith))

pub read_u32le-ok :
    (bytes : List ℕ) (i : ℕ) → i + 4 ≤ length bytes → read_u32le bytes i ≡ ok (u32_at bytes i)
unfolding read_u32le
read_u32le-ok bytes i h = rw (
  byte-ok bytes i (omega arith),
  byte-ok bytes (i + 1) (omega arith),
  byte-ok bytes (i + 2) (omega arith),
  byte-ok bytes (i + 3) (omega arith),
)

pub read_u64le-ok :
    (bytes : List ℕ) (i : ℕ) → i + 8 ≤ length bytes → read_u64le bytes i ≡ ok (u64_at bytes i)
unfolding read_u64le
read_u64le-ok bytes i h =
    rw (read_u32le-ok bytes i (omega arith), read_u32le-ok bytes (i + 4) (omega arith))

pub range_fits-le :
    (size offset count : ℕ) → range_fits size offset count ≡ true → offset + count ≤ size
unfolding range_fits
range_fits-le size offset count h = ground arith

pub le-range_fits :
    (size offset count : ℕ) → offset + count ≤ size → range_fits size offset count ≡ true
unfolding range_fits
le-range_fits size offset count h = ground arith

name_from-ok :
    (bytes : List ℕ) (start rounds : ℕ)
    → start + rounds ≤ length bytes
    → (name : Option (List ℕ)) × (name_from bytes start rounds ≡ ok name)
unfolding name_from
name_from-ok bytes start zero h = (none, refl)
name_from-ok bytes start (suc rounds) h =
    let (name, e) = name_from-ok bytes (start + 1) rounds (omega arith) in
    rw (byte-ok bytes start (omega arith), e)
      (elim (Bool-cases (get_or bytes start 0 == 0)) [
        | inl z ↦ rw z (some [], refl)
        | inr z ↦ rw z (_, refl)
      ])

-- The name lookup reads only the string table.
pub bounded_section_name-ok :
    (bytes : List ℕ) (base strings_size offset : ℕ)
    → base + strings_size ≤ length bytes
    → (name : List ℕ) × (bounded_section_name bytes base strings_size offset ≡ ok name)
unfolding bounded_section_name
bounded_section_name-ok bytes base strings_size offset h =
    elim (Bool-cases (leb strings_size offset)) [
      | inl z ↦ rw z ([], refl)
      | inr z ↦
          let (name, e) =
            name_from-ok bytes (base + offset) (strings_size - offset) (ground arith) in
          rw (z, e) (_, refl)
    ]

-- No read left the file.
pub data IsSafe {ℓ} {A : Type ℓ} : Result A → Type ℓ where
  returned : (a : A) → IsSafe (ok a)
  refused : (e : Status) → IsSafe (err e)

pub IsSafe-ends {ℓ} :
    {A : Type ℓ} {m : Result A} → IsSafe m → ((a : A) × (m ≡ ok a)) ⊎ ((e : Status) × (m ≡ err e))
IsSafe-ends (returned a) = inl (a, refl)
IsSafe-ends (refused e) = inr (e, refl)

pub IsSafe-of_ok {ℓ} : {A : Type ℓ} {m : Result A} → ((a : A) × (m ≡ ok a)) → IsSafe m
IsSafe-of_ok (a, e) = rw e (returned a)
