-- ===== src/Bitmap/Words.antt =====
-- Bits of machine words: what `|`, `&`, `<<` and `>>` do to one bit (bitmap.h works on uint64_t).
use Prim.Native.Nat.{bit_and, bit_or, digits, bit_and-bitwise, bit_or-bitwise}
use native.Mathlib.Nat.{div-div-eq-div-mul, pow-suc, pow-succ'}
use gapbs_bfs_experiment.Base.{
  ℕ, zero, suc, ◌+◌, ◌*◌, ◌/◌, ◌%◌, ◌^◌, ◌≤◌, ◌<◌, min, max, ◌≡◌, refl, ap, ◌∙◌, dec_le, arith,
  if◌then◌else◌, ◌==◌,
}

-- The native operations stand for a recursion on the digits, here for any digit operation. A
-- fuel of the first number is always enough, so each takes one step to the halves.
module _ (f : ℕ → ℕ) (op : ℕ → ℕ → ℕ) where
  one_more : (n a b : ℕ) → a ≤ n → digits f op (suc n) a b ≡ digits f op n a b
  one_more zero zero b h = refl
  one_more zero (suc a) b h = absurd (omega arith)
  one_more (suc n) zero b h = refl
  one_more (suc n) (suc a) b h = rw (one_more n (suc a / 2) (b / 2) (omega arith))

  enough_fuel : (n a b : ℕ) → a ≤ n → digits f op n a b ≡ digits f op a a b
  enough_fuel zero a b h = let fuel_eq : 0 ≡ a = omega arith in ap (λ m. digits f op m a b) fuel_eq
  enough_fuel (suc n) a b h = elim (dec_le a n) [
    | yes small ↦ one_more n a b small ∙ enough_fuel n a b small
    | no large ↦ let fuel_eq : suc n ≡ a = omega arith in ap (λ m. digits f op m a b) fuel_eq
  ]

  halve_digits :
      (a b : ℕ)
      → digits f op (suc a) (suc a) b
        ≡ digits f op (suc a / 2) (suc a / 2) (b / 2) * 2 + op (suc a % 2) (b % 2)
  halve_digits a b = rw (enough_fuel a (suc a / 2) (b / 2) (omega arith))

bit_or-halves : (a b : ℕ) → bit_or a b ≡ bit_or (a / 2) (b / 2) * 2 + max (a % 2) (b % 2)
bit_or-halves zero b = omega (arith, bit_or-bitwise 0 b, bit_or-bitwise 0 (b / 2))
bit_or-halves (suc a) b =
    rw (bit_or-bitwise (suc a) b, bit_or-bitwise (suc a / 2) (b / 2))
      (halve_digits (λ b. b) max a b)

bit_and-halves : (a b : ℕ) → bit_and a b ≡ min (a % 2) (b % 2) + 2 * bit_and (a / 2) (b / 2)
bit_and-halves zero b = omega (arith, bit_and-bitwise 0 b, bit_and-bitwise 0 (b / 2))
bit_and-halves (suc a) b =
    rw (bit_and-bitwise (suc a) b, bit_and-bitwise (suc a / 2) (b / 2))
      (omega (arith, halve_digits (λ b. zero) min a b))

-- Zero on the right: `&` clears and `|` leaves.
with_zero : (n a : ℕ) → a ≤ n → (bit_and a 0 ≡ 0) × (bit_or a 0 ≡ a)
with_zero n zero h = (refl, refl)
with_zero zero (suc a) h = absurd (omega arith)
with_zero (suc n) (suc a) h =
    let half = with_zero n (suc a / 2) (omega arith) in
    (
      omega (arith, bit_and-halves (suc a) 0, half.0),
      omega (arith, bit_or-halves (suc a) 0, half.1),
    )

-- The lowest `k` bits, and the mask that keeps them.
abbrev low_bits : ℕ → ℕ → ℕ
low_bits zero w = 0
low_bits (suc k) w = w % 2 + 2 * low_bits k (w / 2)

abbrev ones : ℕ → ℕ
ones zero = 0
ones (suc k) = 1 + 2 * ones k

bit_and-ones : (k w : ℕ) → bit_and w (ones k) ≡ low_bits k w
bit_and-ones zero w = (with_zero w w (omega arith)).0
bit_and-ones (suc k) w =
    rw (bit_and-halves w (ones (suc k)), ones-half k) (omega (arith, bit_and-ones k (w / 2)))
  where
    ones-half : (k : ℕ) → ones (suc k) / 2 ≡ ones k
    ones-half k = omega arith

pub bit_and-one : (w : ℕ) → bit_and w 1 ≡ w % 2
bit_and-one w = omega (arith, bit_and-ones 1 w)

pub bit_and-63 : (w : ℕ) → bit_and w 63 ≡ w % 64
bit_and-63 w = omega (arith, bit_and-ones 6 w)

-- Bit `j` of a word.
abbrev pub bit : ℕ → ℕ → ℕ
bit w zero = w % 2
bit w (suc j) = bit (w / 2) j

pub shift-bit : (w j : ℕ) → (w / 2 ^ j) % 2 ≡ bit w j
shift-bit w zero = omega arith
shift-bit w (suc j) = rw (pow-succ' 2 j, ← div-div-eq-div-mul w 2 (2 ^ j)) (shift-bit (w / 2) j)

pub bit_of_zero : (j : ℕ) → bit 0 j ≡ 0
bit_of_zero zero = refl
bit_of_zero (suc j) = bit_of_zero j

bit_or-half : (a b : ℕ) → bit_or a b / 2 ≡ bit_or (a / 2) (b / 2)
bit_or-half a b = omega (arith, bit_or-halves a b)

bit_or-low : (a b : ℕ) → bit_or a b % 2 ≡ max (a % 2) (b % 2)
bit_or-low a b = omega (arith, bit_or-halves a b)

power-half : (b : ℕ) → 2 ^ suc b / 2 ≡ 2 ^ b
power-half b = omega (arith, pow-suc 2 b)

-- `w | (1 << b)` sets bit `b` and leaves the others.
pub bit-bit_or : (b j w : ℕ) → bit (bit_or w (2 ^ b)) j ≡ (if b == j then 1 else bit w j)
bit-bit_or zero zero w = omega (arith, bit_or-low w 1)
bit-bit_or zero (suc j) w =
    rw (bit_or-half w 1, (with_zero (w / 2) (w / 2) (omega arith)).1) (ground arith)
bit-bit_or (suc b) zero w = ground (arith, bit_or-low w (2 ^ suc b), pow-suc 2 b)
bit-bit_or (suc b) (suc j) w =
    rw (bit_or-half w (2 ^ suc b), power-half b) (ground (arith, bit-bit_or b j (w / 2)))

-- The words stay within their width.
pub bit_or-lt : (k a b : ℕ) → a < 2 ^ k → b < 2 ^ k → bit_or a b < 2 ^ k
bit_or-lt zero zero zero p q = omega arith
bit_or-lt zero zero (suc b) p q = absurd (omega arith)
bit_or-lt zero (suc a) b p q = absurd (omega arith)
bit_or-lt (suc k) a b p q =
    let e = pow-suc 2 k in
    let ih = bit_or-lt k (a / 2) (b / 2) (omega arith) (omega arith) in
    omega (arith, bit_or-halves a b)

pub power-lt : (b k : ℕ) → b < k → 2 ^ b < 2 ^ k
power-lt b zero h = absurd (omega arith)
power-lt zero (suc zero) h = omega arith
power-lt zero (suc (suc k)) h =
    omega (arith, pow-suc 2 (suc k), power-lt zero (suc k) (omega arith))
power-lt (suc b) (suc k) h = omega (arith, pow-suc 2 b, pow-suc 2 k, power-lt b k (omega arith))

pub bit-lt-two : (w j : ℕ) → bit w j < 2
bit-lt-two w zero = omega arith
bit-lt-two w (suc j) = bit-lt-two (w / 2) j
