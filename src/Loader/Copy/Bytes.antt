-- ===== src/Loader/Copy/Bytes.antt =====
-- The bytes of a block after a copy into it.
use kobox.Prelude.{
  Bool-cases, List, [], arith, drop, false, get_elem?, get_elem?-set_ne, get_elem?-set_self,
  if◌then◌else◌, inl, inr, leb, length, length-drop, length-set, length-take_le, refl, same_text,
  set, suc, take, true, zero, ℕ, ◌&&◌, ◌+◌, ◌-◌, ◌/=◌, ◌<◌, ◌==◌, ◌∙◌, ◌∷◌, ◌≡◌, ◌≢◌, ◌≤◌, ◌⊎◌,
}
use kobox.Elf.Bytes.{Result, ok, err, fault, ◌>>=◌, range_fits, range_fits-le}
use kobox.Elf.File.{Section}
use kobox.Loader.Layout.{gs_size, percpu_name}
use kobox.Loader.Copy.{overwrite, memcpy, sht_nobits, file_bytes, copy_bytes, copy_percpu}

pub length-overwrite : (ys xs : List ℕ) (o : ℕ) → length (overwrite xs o ys) ≡ length xs
unfolding overwrite
length-overwrite [] xs o = refl
length-overwrite (y ∷ ys) xs o = length-overwrite ys (set xs o y) (o + 1) ∙ length-set xs o y

pub get_elem?-overwrite_out :
    (ys xs : List ℕ) (o k : ℕ)
    → (k < o) ⊎ (o + length ys ≤ k)
    → get_elem? (overwrite xs o ys) k ≡ get_elem? xs k
unfolding overwrite
get_elem?-overwrite_out [] xs o k h = refl
get_elem?-overwrite_out (y ∷ ys) xs o k h =
    let later : (k < o + 1) ⊎ (o + 1 + length ys ≤ k) = ground arith in
    get_elem?-overwrite_out ys (set xs o y) (o + 1) k later
    ∙ get_elem?-set_ne xs {i = o} {j = k} y (ground arith)

pub get_elem?-overwrite :
    (ys xs : List ℕ) (o i : ℕ)
    → i < length ys
    → o + length ys ≤ length xs
    → get_elem? (overwrite xs o ys) (o + i) ≡ get_elem? ys i
unfolding overwrite
get_elem?-overwrite [] xs o i h b = absurd (omega arith)
get_elem?-overwrite (y ∷ ys) xs o zero h b =
    let z : o + 0 ≡ o = omega arith in
    rw z (
      get_elem?-overwrite_out ys (set xs o y) (o + 1) o (inl (omega arith))
      ∙ get_elem?-set_self xs o y (omega arith))
get_elem?-overwrite (y ∷ ys) xs o (suc i) h b =
    let z : o + suc i ≡ o + 1 + i = omega arith in
    rw z (
      get_elem?-overwrite ys (set xs o y) (o + 1) i (omega arith)
        (omega (arith, length-set xs o y)))

get_elem?-drop : (o i : ℕ) (xs : List ℕ) → get_elem? (drop o xs) i ≡ get_elem? xs (o + i)
get_elem?-drop zero i xs = let z : 0 + i ≡ i = omega arith in rw z
get_elem?-drop (suc o) i [] = refl
get_elem?-drop (suc o) i (x ∷ xs) =
    let z : suc o + i ≡ suc (o + i) = omega arith in rw z (get_elem?-drop o i xs)

get_elem?-take : (n i : ℕ) (xs : List ℕ) → i < n → get_elem? (take n xs) i ≡ get_elem? xs i
get_elem?-take zero i xs h = absurd (omega arith)
get_elem?-take (suc n) i [] h = refl
get_elem?-take (suc n) zero (x ∷ xs) h = refl
get_elem?-take (suc n) (suc i) (x ∷ xs) h = get_elem?-take n i xs (omega arith)

pub get_elem?-file_bytes :
    (file : List ℕ) (s : Section) (i : ℕ)
    → i < s.size
    → get_elem? (file_bytes file s) i ≡ get_elem? file (s.offset + i)
get_elem?-file_bytes file s i h =
    get_elem?-take s.size i (drop s.offset file) h ∙ get_elem?-drop s.offset i file

pub length-file_bytes :
    (file : List ℕ) (s : Section)
    → range_fits (length file) s.offset s.size ≡ true
    → length (file_bytes file s) ≡ s.size
length-file_bytes file s h =
    let fits = range_fits-le (length file) s.offset s.size h in
    length-take_le s.size (drop s.offset file) (omega (arith, length-drop s.offset file))

-- What a copy of a section into a block makes of it.
pub record IsWritten (file : List ℕ) (s : Section) (o : ℕ) (bytes bytes' : List ℕ) : Type 0 where
  pub size : length bytes' ≡ length bytes
  pub outside : (k : ℕ) → (k < o) ⊎ (o + s.size ≤ k) → get_elem? bytes' k ≡ get_elem? bytes k
  pub inside :
      (i : ℕ)
      → i < s.size
      → get_elem? bytes' (o + i)
        ≡ (if s.type == sht_nobits then get_elem? bytes (o + i) else get_elem? file (s.offset + i))

-- No fault, and the property of the value if there is one.
abbrev pub Safely {ℓ} : {A : Type ℓ} → Result A → (A → Type 0) → Type 0
Safely (ok a) P = P a
Safely (err e) P = Unit
Safely fault P = ⊥

pub >>=-Safely {ℓ κ} :
    {A : Type ℓ} {B : Type κ} (P : A → Type 0) (Q : B → Type 0) (r : Result A) (f : A → Result B)
    → Safely r P
    → ((a : A) → r ≡ ok a → P a → Safely (f a) Q)
    → Safely (r >>= f) Q
>>=-Safely P Q (ok a) f h k = k a refl h
>>=-Safely P Q (err e) f h k = tt
>>=-Safely P Q fault f h k = absurd h

pub copy_bytes-Safely :
    (file : List ℕ) (s : Section) (o : ℕ) (bytes : List ℕ)
    → o + s.size ≤ length bytes
    → Safely (copy_bytes file s o bytes) (IsWritten file s o bytes)
unfolding copy_bytes memcpy
copy_bytes-Safely file s o bytes b = elim (Bool-cases (s.type == sht_nobits)) [
  | inl y ↦ rw (copy_bytes, y) (record { size = refl; outside = λ k h. refl; inside = λ i h. rw y })
  | inr n ↦ elim (Bool-cases (range_fits (length file) s.offset s.size)) [
    | inr f ↦ rw (copy_bytes, n, f) tt
    | inl f ↦
        let size = length-file_bytes file s f in
        let room : leb (o + length (file_bytes file s)) (length bytes) ≡ true = ground arith in
        rw (copy_bytes, n, f, room)
          (record {
            size = length-overwrite (file_bytes file s) bytes o;
            outside = λ k h. get_elem?-overwrite_out (file_bytes file s) bytes o k (rw size h);
            inside = λ i h. rw n (
                get_elem?-overwrite (file_bytes file s) bytes o i (omega arith) (omega arith)
                ∙ get_elem?-file_bytes file s i h);
          })
  ]
]

length-take-le : (n : ℕ) (xs : List ℕ) → length (take n xs) ≤ n
length-take-le zero xs = omega arith
length-take-le (suc n) [] = omega arith
length-take-le (suc n) (x ∷ xs) = omega (arith, length-take-le n xs)

module _ (file : List ℕ) (percpu_offset percpu_size : ℕ) (s : Section) (gs : List ℕ)
    (h : length gs ≡ gs_size) where
  percpu_room :
      leb s.size (gs_size - percpu_offset) ≡ true
      → (s.size == 0) ≡ false
      → leb (percpu_offset + length (file_bytes file s)) (length gs) ≡ true
  percpu_room f n =
      let short = length-take-le s.size (drop s.offset file) in
      let some' : s.size ≢ 0 = ground arith in
      let fits : s.size ≤ gs_size - percpu_offset = ground arith in
      let b : percpu_offset + length (file_bytes file s) ≤ length gs = omega arith in
      ground (arith, b)

  pub copy_percpu-Safely :
      Safely (copy_percpu file percpu_offset percpu_size s gs) (λ gs'. length gs' ≡ gs_size)
  unfolding copy_percpu memcpy
  copy_percpu-Safely = elim (Bool-cases (same_text s.name percpu_name)) [
    | inr n ↦ rw (copy_percpu, n) h
    | inl y ↦
        elim (Bool-cases
          (percpu_offset /= 0 && s.size == percpu_size && leb s.size (gs_size - percpu_offset))) [
            | inr g ↦ rw (copy_percpu, y, g) tt
            | inl g ↦ elim (Bool-cases (s.type /= sht_nobits && s.size /= 0)) [
              | inr n ↦ rw (copy_percpu, y, g, n) h
              | inl n ↦
                  let room = percpu_room (ground arith) (ground arith) in
                  rw (copy_percpu, y, g, n, room)
                    (length-overwrite (file_bytes file s) gs percpu_offset ∙ h)
            ]
          ]
  ]
