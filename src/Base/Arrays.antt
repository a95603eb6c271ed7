-- ===== src/Base/Arrays.antt =====
-- Arrays by their entries, loops over them, and the sum of a list of numbers.
use Prim.Native.Nat.{ℕ, zero, suc, ◌+◌, ◌<◌}
use mathlib.Core.Path.{◌≡◌, refl, ap}
use mathlib.Core.List.{List, [], ◌∷◌, ◌++◌, foldl}
use native.Mathlib.Omega.{arith}
use gapbs_bfs_experiment.Base.Tests.{if◌then◌else◌, ◌==◌}
use gapbs_bfs_experiment.Base.Lists.{length, get_or, set}

abbrev pub sum : List ℕ → ℕ
sum [] = 0
sum (x ∷ xs) = x + sum xs

pub foldl-append {ℓ κ} :
    {A : Type ℓ} {C : Type κ} (step : C → A → C) (xs ys : List A) (c : C)
    → foldl step c (xs ++ ys) ≡ foldl step (foldl step c xs) ys
foldl-append step [] ys c = refl
foldl-append step (x ∷ xs) ys c = foldl-append step xs ys (step c x)

pub get_or-append_right :
    (xs ys : List ℕ) (i j : ℕ) → j ≡ length xs + i → get_or (xs ++ ys) j 0 ≡ get_or ys i 0
get_or-append_right [] ys i j h = let same : j ≡ i = omega arith in ap (λ k. get_or ys k 0) same
get_or-append_right (x ∷ xs) ys i zero h = absurd (omega arith)
get_or-append_right (x ∷ xs) ys i (suc j) h = get_or-append_right xs ys i j (omega arith)

pub get_or-append_left :
    (xs ys : List ℕ) (i : ℕ) → i < length xs → get_or (xs ++ ys) i 0 ≡ get_or xs i 0
get_or-append_left [] ys i h = elim h [ ]
get_or-append_left (x ∷ xs) ys zero h = refl
get_or-append_left (x ∷ xs) ys (suc i) h = get_or-append_left xs ys i (omega arith)

-- Two arrays with the same entries are the same.
pub entries_ext {ℓ} :
    {A : Type ℓ} (xs ys : List A) (d : A)
    → length xs ≡ length ys
    → ((i : ℕ) → i < length xs → get_or xs i d ≡ get_or ys i d)
    → xs ≡ ys
entries_ext [] [] d size same = refl
entries_ext [] (y ∷ ys) d size same = absurd (omega arith)
entries_ext (x ∷ xs) [] d size same = absurd (omega arith)
entries_ext (x ∷ xs) (y ∷ ys) d size same =
    let head : x ≡ y = same 0 (omega arith) in
    let tail = entries_ext xs ys d (omega arith) (λ i lt. same (suc i) (omega arith)) in
    rw (head, tail) refl

module _ {ℓ} {A : Type ℓ} (d : A) where
  -- A read in bounds, after a write anywhere.
  pub read_after :
      (xs : List A) (n i : ℕ) (v : A)
      → i < length xs
      → get_or (set xs n v) i d ≡ (if n == i then v else get_or xs i d)
  read_after [] n i v h = elim h [ ]
  read_after (x ∷ xs) zero zero v h = refl
  read_after (x ∷ xs) zero (suc i) v h = ground arith
  read_after (x ∷ xs) (suc n) zero v h = ground arith
  read_after (x ∷ xs) (suc n) (suc i) v h = ground (arith, read_after xs n i v)
