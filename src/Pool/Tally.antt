-- ===== src/Pool/Tally.antt =====
-- Counting the threads of the barrier of src/bfs_pthread.cc.
use gapbs_bfs_experiment.Base.{
  dec_lt, ℕ, zero, suc, ◌+◌, ◌≤◌, ◌<◌, ◌≡◌, refl, arith, false, List, [], ◌∷◌, length, get_or, set,
  ◌==◌,
}
use gapbs_bfs_experiment.Pool.Barrier.{Thread, outside}

-- How many threads are in a state that `f` counts.
abbrev pub tally : (Thread → ℕ) → List Thread → ℕ
tally f [] = 0
tally f (t ∷ ts) = f t + tally f ts

pub tally-set :
    (f : Thread → ℕ) (ts : List Thread) (i : ℕ) (t : Thread)
    → i < length ts
    → tally f (set ts i t) + f (get_or ts i outside) ≡ tally f ts + f t
tally-set f [] i t h = elim h [ ]
tally-set f (x ∷ ts) zero t h = omega arith
tally-set f (x ∷ ts) (suc i) t h = omega (arith, tally-set f ts i t (omega arith))

pub tally-le :
    (f : Thread → ℕ) → ((t : Thread) → f t ≤ 1) → (ts : List Thread) → tally f ts ≤ length ts
tally-le f le [] = omega arith
tally-le f le (t ∷ ts) = omega (arith, le t, tally-le f le ts)

-- If all are counted, each is.
pub tally-full :
    (f : Thread → ℕ)
    → ((t : Thread) → f t ≤ 1)
    → (ts : List Thread) (i : ℕ) → tally f ts ≡ length ts
    → i < length ts
    → f (get_or ts i outside) ≡ 1
tally-full f le [] i h lt = elim lt [ ]
tally-full f le (t ∷ ts) zero h lt = omega (arith, le t, tally-le f le ts)
tally-full f le (t ∷ ts) (suc i) h lt =
    tally-full f le ts i (omega (arith, le t, tally-le f le ts)) (omega arith)

pub tally-zero :
    (f : Thread → ℕ) (ts : List Thread)
    → ((i : ℕ) → i < length ts → f (get_or ts i outside) ≡ 0)
    → tally f ts ≡ 0
tally-zero f [] h = refl
tally-zero f (t ∷ ts) h =
    omega (arith, h 0 (omega arith), tally-zero f ts (λ i lt. h (suc i) (omega arith)))

pub one-le-tally :
    (f : Thread → ℕ) (ts : List Thread) (i : ℕ)
    → i < length ts
    → f (get_or ts i outside) ≤ tally f ts
one-le-tally f [] i lt = elim lt [ ]
one-le-tally f (t ∷ ts) zero lt = omega arith
one-le-tally f (t ∷ ts) (suc i) lt = omega (arith, one-le-tally f ts i (omega arith))

pub two-le-tally :
    (f : Thread → ℕ) (ts : List Thread) (i j : ℕ)
    → i < length ts
    → j < length ts
    → i == j ≡ false
    → f (get_or ts i outside) + f (get_or ts j outside) ≤ tally f ts
two-le-tally f [] i j li lj e = elim li [ ]
two-le-tally f (t ∷ ts) zero zero li lj e = absurd (ground arith)
two-le-tally f (t ∷ ts) zero (suc j) li lj e = omega (arith, one-le-tally f ts j (omega arith))
two-le-tally f (t ∷ ts) (suc i) zero li lj e = omega (arith, one-le-tally f ts i (omega arith))
two-le-tally f (t ∷ ts) (suc i) (suc j) li lj e =
    omega (arith, two-le-tally f ts i j (omega arith) (omega arith) (ground arith))

-- If not all are counted, some thread is not.
pub uncounted :
    (f : Thread → ℕ) (ts : List Thread)
    → ((t : Thread) → f t ≤ 1)
    → tally f ts < length ts
    → (i : ℕ) × (i < length ts) × (f (get_or ts i outside) ≡ 0)
uncounted f [] le h = elim h [ ]
uncounted f (t ∷ ts) le h = elim (dec_lt 0 (f t)) [
  | yes some ↦
      let (i, lt, zero_at) = uncounted f ts le (omega (arith, le t)) in
      (suc i, omega arith, zero_at)
  | no zero_here ↦ (0, omega arith, omega arith)
]

-- If some are counted, there is one.
pub counted :
    (f : Thread → ℕ) (ts : List Thread)
    → 0 < tally f ts
    → (i : ℕ) × (i < length ts) × (0 < f (get_or ts i outside))
counted f [] h = elim h [ ]
counted f (t ∷ ts) h = elim (dec_lt 0 (f t)) [
  | yes some ↦ (0, omega arith, some)
  | no zero_here ↦ let (i, lt, at) = counted f ts (omega arith) in (suc i, omega arith, at)
]
