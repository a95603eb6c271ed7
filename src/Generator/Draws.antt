-- ===== src/Generator/Draws.antt =====
-- The draws of UniDist (src/generator.h) from an engine of 32-bit numbers.
use gapbs_bfs_experiment.Base.{
  ℕ, zero, suc, ◌+◌, ◌-◌, ◌*◌, ◌/◌, ◌%◌, ◌^◌, ◌≤◌, ◌<◌, ◌≡◌, refl, arith, false, Option, some,
  if◌then◌else◌, leb, ◌==◌, ==→eq, Bool-cases, inl, inr,
}
use gapbs_bfs_experiment.Generator.{UniDist, new_uni_dist, draw_below, draw, word}

-- The distribution over 0 .. max_value from an engine that gives all 32-bit numbers.
abbrev pub dist : ℕ → UniDist
dist max_value = new_uni_dist (2 ^ 32 - 1) max_value

-- How many of the engine's numbers it accepts.
abbrev pub accepted : UniDist → ℕ
accepted d = if d.cutoff == 0 then 2 ^ 32 else d.cutoff

whole_part : (n m : ℕ) → n - n % m ≡ m * (n / m)
whole_part n m = grind arith

mod_lt : (n m : ℕ) → 0 < m → n % m < m
mod_lt n m h = grind arith

next_multiple : (m q : ℕ) → m * q + m ≡ m * (q + 1)
next_multiple m q = grind arith

-- The three members, where the modulus fits 32 bits.
record Members (max_value : ℕ) : Type 0 where
  modulus_is : (dist max_value).modulus ≡ max_value + 1
  takes_mod : (dist max_value).no_mod ≡ false
  multiple : (q : ℕ) × (accepted (dist max_value) ≡ (max_value + 1) * q)

dist-Members : (max_value : ℕ) → max_value < 2 ^ 32 - 1 → Members max_value
unfolding new_uni_dist
dist-Members max_value small =
    let n = 2 ^ 32 - 1 in
    let m = max_value + 1 in
    let rem = n % m in
    let fits : m % 2 ^ 32 ≡ m = omega arith in
    let rem_lt = mod_lt n m (omega arith) in
    let rem_fits : rem % 2 ^ 32 ≡ rem = omega arith in
    let whole = whole_part n m in
    record {
      modulus_is = fits;
      takes_mod = ground arith;
      multiple =
          rw (fits, rem_fits)
            (elim (Bool-cases (rem == m - 1)) [
              | inl exact ↦
                  let last : rem ≡ m - 1 = ==→eq rem (m - 1) exact in
                  (n / m + 1, rw exact (omega (arith, next_multiple m (n / m))))
              | inr cut ↦
                  let kept : (n - rem) % 2 ^ 32 ≡ n - rem = omega arith in
                  let some_kept : (n - rem == 0) ≡ false = ground arith in
                  (n / m, rw cut (rw kept (rw some_kept whole)))
            ]);
    }

-- A draw that ended with a number that is not above `max_value`.
pub record Drawn (max_value : ℕ) (o : Option (ℕ × ℕ)) : Type 0 where
  pub value : ℕ
  pub next : ℕ
  pub ends : o ≡ some (value, next)
  pub at_most : value ≤ max_value

draw_below_ends :
    (fuel cutoff : ℕ) (draws : ℕ → ℕ) (i k : ℕ)
    → k < fuel
    → word (draws (i + k)) < cutoff
    → (n : ℕ) × (j : ℕ) × (draw_below fuel cutoff draws i ≡ some (n, j))
unfolding draw_below
draw_below_ends zero cutoff draws i k h low = absurd (omega arith)
draw_below_ends (suc fuel) cutoff draws i zero h low =
    let same : i + 0 ≡ i = omega arith in
    let below : leb cutoff (word (draws i)) ≡ false = ground (arith, rw same at low) in
    (word (draws i), suc i, rw below refl)
draw_below_ends (suc fuel) cutoff draws i (suc k) h low =
    let same : i + suc k ≡ suc i + k = omega arith in
    elim (Bool-cases (leb cutoff (word (draws i)))) [
      | inr here ↦ (word (draws i), suc i, rw here refl)
      | inl high ↦
          let (n, j, ends) =
            draw_below_ends fuel cutoff draws (suc i) k (omega arith) (rw same at low) in
          (n, j, rw high ends)
    ]

draw_ends :
    (tries max_value : ℕ) (draws : ℕ → ℕ) (i k : ℕ)
    → Members max_value
    → k < tries
    → word (draws (i + k)) < accepted (dist max_value)
    → Drawn max_value (draw tries (dist max_value) draws i)
unfolding draw
draw_ends tries max_value draws i k m h low =
    let d = dist max_value in
    let below = λ (n : ℕ).
      let lt = mod_lt n d.modulus (omega (arith, m.modulus_is)) in
      let le : n % d.modulus ≤ max_value = omega (arith, m.modulus_is) in le in
    elim (Bool-cases (d.cutoff == 0)) [
      | inl all ↦ record {
        value = word (draws i) % d.modulus;
        next = suc i;
        ends = rw (m.takes_mod, all) refl;
        at_most = below (word (draws i));
      }
      | inr some_cut ↦
          let cut : accepted d ≡ d.cutoff = rw some_cut refl in
          let (n, j, ends) = draw_below_ends tries d.cutoff draws i k h (rw cut at low) in
          record {
            value = n % d.modulus;
            next = j;
            ends = rw (m.takes_mod, some_cut) (rw ends refl);
            at_most = below n;
          }
    ]

-- If one of the next `tries` numbers of the engine is accepted, a draw over 0 .. max_value ends with a
-- number in that range, and the count of numbers that it accepts is a multiple of the range's size.
pub draw-Drawn :
    (tries max_value : ℕ) (draws : ℕ → ℕ) (i k : ℕ)
    → max_value < 2 ^ 32 - 1
    → k < tries
    → word (draws (i + k)) < accepted (dist max_value)
    → Drawn max_value (draw tries (dist max_value) draws i)
      × ((q : ℕ) × (accepted (dist max_value) ≡ (max_value + 1) * q))
draw-Drawn tries max_value draws i k small h low =
    let m = dist-Members max_value small in
    (draw_ends tries max_value draws i k m h low, m.multiple)
