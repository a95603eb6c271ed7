-- ===== src/Base/Members.antt =====
-- Membership in a list of numbers: by index, and through a map.
use Prim.Native.Nat.{ℕ, zero, suc, ◌<◌}
use mathlib.Core.Path.{◌≡◌}
use mathlib.Core.Logic.{inl, inr}
use mathlib.Core.List.{List, [], ◌∷◌, map}
use mathlib.Core.Bool.{true}
use native.Mathlib.Omega.{arith}
use gapbs_bfs_experiment.Base.Tests.{◌==◌, ==→eq, Bool-cases}
use gapbs_bfs_experiment.Base.Lists.{length, get_or, elem}

-- A member stands at some index.
pub elem-index :
    (u : ℕ) (xs : List ℕ) → elem u xs ≡ true → (i : ℕ) × (i < length xs) × (get_or xs i 0 ≡ u)
elem-index u [] h = cc
elem-index u (x ∷ xs) h = elim (Bool-cases (u == x)) [
  | inl e ↦ (0, omega arith, ground (arith, ==→eq u x e))
  | inr e ↦ let (i, lt, at) = elem-index u xs (ground arith) in (suc i, omega arith, at)
]

pub elem-get_or : (xs : List ℕ) (i : ℕ) → i < length xs → elem (get_or xs i 0) xs ≡ true
elem-get_or [] i h = elim h [ ]
elem-get_or (x ∷ xs) zero h = ground arith
elem-get_or (x ∷ xs) (suc i) h = ground (arith, elem-get_or xs i)

pub elem-map : (f : ℕ → ℕ) (xs : List ℕ) (x : ℕ) → elem x xs ≡ true → elem (f x) (map f xs) ≡ true
elem-map f [] x h = cc
elem-map f (y ∷ ys) x h = elim (Bool-cases (x == y)) [
  | inl e ↦ let same : x ≡ y = ==→eq x y e in rw same (ground arith)
  | inr e ↦ ground (arith, elem-map f ys x)
]

pub map-elem :
    (f : ℕ → ℕ) (xs : List ℕ) (y : ℕ)
    → elem y (map f xs) ≡ true
    → (x : ℕ) × (elem x xs ≡ true) × (f x ≡ y)
map-elem f [] y h = cc
map-elem f (x ∷ xs) y h = elim (Bool-cases (y == f x)) [
  | inl e ↦ (x, ground arith, ground (arith, ==→eq y (f x) e))
  | inr e ↦ let (x', member, image) = map-elem f xs y (ground arith) in (x', ground arith, image)
]
