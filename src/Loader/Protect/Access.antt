-- ===== src/Loader/Protect/Access.antt =====
-- What the calls of mprotect leave accessible, and what one section adds to them.
use native.Mathlib.Nat.{one-le-pow, le-div_iff_mul-le, mul-le-mul_right, div-mul-le_self, le_trans}
use kobox.Prelude.{
  Bool, List, Option, [], and_complement, and_low_bits, arith, if◌then◌else◌, leb, ltb, none, some,
  ℕ, ◌&&◌, ◌*◌, ◌+◌, ◌-◌, ◌/◌, ◌<◌, ◌^◌, ◌∷◌, ◌≡◌, ◌≤◌,
}
use kobox.Elf.Bytes.{ok}
use kobox.Loader.Layout.Align.{two-pow-le}
use kobox.Loader.Layout.Placed.{Boundary}
use kobox.Loader.Protect.{Call, page_floor, mprotect}

-- The access of the last call that covers the address.
unfoldable pub access_at : ℕ → List Call → Option ℕ
access_at a [] = none
access_at a (c ∷ cs) =
    if leb c.start a && ltb a (c.start + c.size) then some c.access else access_at a cs

pub access_at-covered :
    (a : ℕ) (c : Call) (cs : List Call)
    → c.start ≤ a
    → a < c.start + c.size
    → access_at a (c ∷ cs) ≡ some c.access
unfolding access_at
access_at-covered a c cs h l = ground arith

pub access_at-before :
    (a : ℕ) (c : Call) (cs : List Call) → a < c.start → access_at a (c ∷ cs) ≡ access_at a cs
unfolding access_at
access_at-before a c cs h = ground arith

pub page_floor_eq : (k x : ℕ) → k ≤ 40 → x < 2 ^ 62 → page_floor x (2 ^ k) ≡ x / 2 ^ k * 2 ^ k
unfolding page_floor
page_floor_eq k x small low =
    let bound = two-pow-le k small in
    let least = one-le-pow k 2 (omega arith) in
    let shared = and_complement 64 x (2 ^ k - 1) (omega arith) (omega arith) in
    let rest = and_low_bits k x in grind (arith, shared, rest)

-- A boundary above `from` and below `x` is below the page of `x`.
pub Boundary-page_floor :
    (k from x : ℕ) → k ≤ 40 → x < 2 ^ 62 → Boundary (2 ^ k) from x → from ≤ page_floor x (2 ^ k)
Boundary-page_floor k from x small low (m, above, below) =
    let least = one-le-pow k 2 (omega arith) in
    let whole : m ≤ x / 2 ^ k = (le-div_iff_mul-le least).1 below in
    rw (page_floor_eq k x small low) (le_trans above (mul-le-mul_right (2 ^ k) whole))

pub page_floor_mono :
    (k x y : ℕ) → k ≤ 40 → y < 2 ^ 62 → x ≤ y → page_floor x (2 ^ k) ≤ page_floor y (2 ^ k)
page_floor_mono k x y small low h = rw (page_floor_eq k x small (omega arith)) (
    Boundary-page_floor k (x / 2 ^ k * 2 ^ k) y small low
      (x / 2 ^ k, omega arith, le_trans (div-mul-le_self x (2 ^ k)) h))

pub page_floor_le : (k x : ℕ) → k ≤ 40 → x < 2 ^ 62 → page_floor x (2 ^ k) ≤ x
page_floor_le k x small low = rw (page_floor_eq k x small low) (grind arith)

pub mprotect_lem :
    (grant : Call → Bool) (start size access : ℕ) (calls : List Call) {calls' : List Call}
    → mprotect grant start size access calls ≡ ok calls'
    → calls' ≡ record { start = start; size = size; access = access } ∷ calls
unfolding mprotect
mprotect_lem grant start size access calls h = ground arith
