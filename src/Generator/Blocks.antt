-- ===== src/Generator/Blocks.antt =====
-- The blocks of Generator (src/generator.h), with the uniform edges and the weights that they hold.
use gapbs_bfs_experiment.Base.{
  ℕ, zero, suc, ◌+◌, ◌-◌, ◌/◌, ◌^◌, ◌≤◌, ◌<◌, min, ◌≡◌, refl, ap, ◌∙◌, arith, Option, some, List,
  [], ◌∷◌, ◌++◌, length, length-append, ltb, Bool-cases, inl, inr,
}
use gapbs_bfs_experiment.Builder.{EdgePair}
use gapbs_bfs_experiment.Generator.{
  Engine, by_blocks, uniform_edges, block_weights, k_rand_seed, word,
}
use gapbs_bfs_experiment.Generator.Draws.{dist, accepted, draw-Drawn}

abbrev pub All {ℓ} : {A : Type ℓ} → (A → Type 0) → List A → Type 0
All P [] = Unit {0}
All P (x ∷ xs) = P x × All P xs

-- A list that a computation ended with: its length, and what holds of its items.
pub record Makes {ℓ} {A : Type ℓ} (P : A → Type 0) (count : ℕ) (o : Option (List A)) : Type ℓ where
  pub items : List A
  pub ends : o ≡ some items
  pub size : length items ≡ count
  pub each : All P items

pub All-append {ℓ} :
    {A : Type ℓ} (P : A → Type 0) (xs ys : List A) → All P xs → All P ys → All P (xs ++ ys)
All-append P [] ys h k = k
All-append P (x ∷ xs) ys h k = (h.0, All-append P xs ys h.1 k)

pub by_blocks-Makes {ℓ} :
    {A : Type ℓ} (P : A → Type 0) (body : ℕ → ℕ → Option (List A)) (block_size total fuel block : ℕ)
    → 0 < block_size
    → total - block ≤ fuel
    → ((seed count : ℕ) → Makes P count (body seed count))
    → Makes P (total - block) (by_blocks body block_size total fuel block)
unfolding by_blocks
by_blocks-Makes P body block_size total zero block h enough each = record {
  items = [];
  ends = refl;
  size = omega arith;
  each = tt;
}
by_blocks-Makes P body block_size total (suc fuel) block h enough each =
    elim (Bool-cases (ltb block total)) [
      | inr past ↦ rw past (record { items = []; ends = refl; size = ground arith; each = tt })
      | inl more ↦
          let here =
            each (k_rand_seed + block / block_size) (min (block + block_size) total - block) in
          let rest =
            by_blocks-Makes P body block_size total fuel (block + block_size) h (ground arith)
              each in
          rw more (record {
            items = here.items ++ rest.items;
            ends = rw (here.ends, rest.ends) refl;
            size = length-append here.items rest.items ∙ ground (arith, here.size, rest.size);
            each = All-append P here.items rest.items here.each rest.each;
          })
    ]

-- Of the next `tries` numbers of the engine, one is accepted, wherever a draw starts.
abbrev pub IsLucky : Engine → ℕ → ℕ → Type 0
IsLucky engine tries max_value =
    (seed i : ℕ) → (k : ℕ) × (k < tries) × (word (engine seed (i + k)) < accepted (dist max_value))

abbrev pub EndsBelow : ℕ → EdgePair → Type 0
EndsBelow n e = (e.u < n) × (e.v < n)

pub uniform_edges-Makes :
    (engine : Engine) (tries max_value seed count i : ℕ)
    → max_value < 2 ^ 32 - 1
    → IsLucky engine tries max_value
    → Makes
        (EndsBelow (max_value + 1))
        count
        (uniform_edges tries (dist max_value) (engine seed) count i)
unfolding uniform_edges
uniform_edges-Makes engine tries max_value seed zero i small lucky = record {
  items = [];
  ends = refl;
  size = refl;
  each = tt;
}
uniform_edges-Makes engine tries max_value seed (suc count) i small lucky =
    let (k, h, low) = lucky seed i in
    let u = (draw-Drawn tries max_value (engine seed) i k small h low).0 in
    let (k', h', low') = lucky seed u.next in
    let v = (draw-Drawn tries max_value (engine seed) u.next k' small h' low').0 in
    let rest = uniform_edges-Makes engine tries max_value seed count v.next small lucky in
    record {
      items = record { u = u.value; v = v.value } ∷ rest.items;
      ends = rw u.ends (rw v.ends (rw rest.ends refl));
      size = ap suc rest.size;
      each = ((omega (arith, u.at_most), omega (arith, v.at_most)), rest.each);
    }

pub block_weights-Makes :
    (engine : Engine) (tries seed count i : ℕ)
    → IsLucky engine tries 254
    → Makes (λ w. (1 ≤ w) × (w ≤ 255)) count (block_weights tries (dist 254) (engine seed) count i)
unfolding block_weights
block_weights-Makes engine tries seed zero i lucky = record {
  items = [];
  ends = refl;
  size = refl;
  each = tt;
}
block_weights-Makes engine tries seed (suc count) i lucky =
    let (k, h, low) = lucky seed i in
    let w = (draw-Drawn tries 254 (engine seed) i k (omega arith) h low).0 in
    let rest = block_weights-Makes engine tries seed count w.next lucky in
    record {
      items = (w.value + 1) ∷ rest.items;
      ends = rw w.ends (rw rest.ends refl);
      size = ap suc rest.size;
      each = ((omega arith, omega (arith, w.at_most)), rest.each);
    }
