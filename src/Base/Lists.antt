-- ===== src/Base/Lists.antt =====
-- Arrays as lists: indexing, writing and cutting by native numbers.
use Prim.Native.Nat.{ℕ, zero, suc, ◌+◌, ◌-◌, ◌≤◌, ◌<◌}
use mathlib.Core.Path.{◌≡◌, refl, ap, ◌∙◌}
use mathlib.Core.Logic.{◌⊎◌, inl, inr}
use mathlib.Core.List.{List, [], ◌∷◌, ◌++◌, map}
use mathlib.Core.Bool.{Bool, true, false, ◌||◌, ◌&&◌}
use native.Mathlib.Omega.{arith}
use gapbs_bfs_experiment.Base.Tests.{if◌then◌else◌, ◌==◌, ltb, leb}

module _ {ℓ} {A : Type ℓ} where
  abbrev pub length : List A → ℕ
  length [] = 0
  length (x ∷ xs) = suc (length xs)

  -- A read out of bounds gives the default.
  abbrev pub get_or : List A → ℕ → A → A
  get_or [] i d = d
  get_or (x ∷ xs) zero d = x
  get_or (x ∷ xs) (suc i) d = get_or xs i d

  -- A write out of bounds changes nothing.
  abbrev pub set : List A → ℕ → A → List A
  set [] i v = []
  set (x ∷ xs) zero v = v ∷ xs
  set (x ∷ xs) (suc i) v = x ∷ set xs i v

  abbrev pub take : ℕ → List A → List A
  take zero xs = []
  take (suc n) [] = []
  take (suc n) (x ∷ xs) = x ∷ take n xs

  abbrev pub drop : ℕ → List A → List A
  drop zero xs = xs
  drop (suc n) [] = []
  drop (suc n) (x ∷ xs) = drop n xs

  abbrev pub replicate : ℕ → A → List A
  replicate zero a = []
  replicate (suc n) a = a ∷ replicate n a

  pub length-append : (xs ys : List A) → length (xs ++ ys) ≡ length xs + length ys
  length-append [] ys = omega arith
  length-append (x ∷ xs) ys = omega (arith, length-append xs ys)

  pub length-set : (xs : List A) (i : ℕ) (v : A) → length (set xs i v) ≡ length xs
  length-set [] i v = refl
  length-set (x ∷ xs) zero v = refl
  length-set (x ∷ xs) (suc i) v = ap suc (length-set xs i v)

  pub length-replicate : (n : ℕ) (a : A) → length (replicate n a) ≡ n
  length-replicate zero a = refl
  length-replicate (suc n) a = ap suc (length-replicate n a)

  pub get_or-replicate : (n i : ℕ) (a : A) → get_or (replicate n a) i a ≡ a
  get_or-replicate zero i a = refl
  get_or-replicate (suc n) zero a = refl
  get_or-replicate (suc n) (suc i) a = get_or-replicate n i a

  pub get_or-set :
      (xs : List A) (i j : ℕ) (v d : A)
      → i < length xs
      → get_or (set xs i v) j d ≡ (if i == j then v else get_or xs j d)
  get_or-set [] i j v d h = elim h [ ]
  get_or-set (x ∷ xs) zero zero v d h = refl
  get_or-set (x ∷ xs) zero (suc j) v d h = ground arith
  get_or-set (x ∷ xs) (suc i) zero v d h = ground arith
  get_or-set (x ∷ xs) (suc i) (suc j) v d h = ground (arith, get_or-set xs i j v d)

  pub get_or-default : (xs : List A) (i : ℕ) (d : A) → length xs ≤ i → get_or xs i d ≡ d
  get_or-default [] i d h = refl
  get_or-default (x ∷ xs) zero d h = absurd (omega arith)
  get_or-default (x ∷ xs) (suc i) d h = get_or-default xs i d (omega arith)

  pub take-length : (xs ys : List A) → take (length xs) (xs ++ ys) ≡ xs
  take-length [] ys = refl
  take-length (x ∷ xs) ys = ap (◌∷◌ x) (take-length xs ys)

  pub drop-length : (xs ys : List A) → drop (length xs) (xs ++ ys) ≡ ys
  drop-length [] ys = refl
  drop-length (x ∷ xs) ys = drop-length xs ys

  pub set-length :
      (xs : List A) (y z : A) (ys : List A) → set (xs ++ y ∷ ys) (length xs) z ≡ xs ++ z ∷ ys
  set-length [] y z ys = refl
  set-length (x ∷ xs) y z ys = ap (◌∷◌ x) (set-length xs y z ys)

  pub length-take : (n : ℕ) (xs : List A) → n ≤ length xs → length (take n xs) ≡ n
  length-take zero xs h = refl
  length-take (suc n) [] h = absurd (omega arith)
  length-take (suc n) (x ∷ xs) h = ap suc (length-take n xs (omega arith))

  pub take-append-drop : (n : ℕ) (xs : List A) → take n xs ++ drop n xs ≡ xs
  take-append-drop zero xs = refl
  take-append-drop (suc n) [] = refl
  take-append-drop (suc n) (x ∷ xs) = rw (take-append-drop n xs)

  pub length-drop : (n : ℕ) (xs : List A) → length (drop n xs) ≡ length xs - n
  length-drop zero xs = omega arith
  length-drop (suc n) [] = omega arith
  length-drop (suc n) (x ∷ xs) = omega (arith, length-drop n xs)

  pub take-set :
      (xs : List A) (n : ℕ) (x : A)
      → n < length xs
      → take (suc n) (set xs n x) ≡ take n xs ++ x ∷ []
  take-set [] n x h = elim h [ ]
  take-set (y ∷ xs) zero x h = refl
  take-set (y ∷ xs) (suc n) x h = ap (◌∷◌ y) (take-set xs n x (omega arith))

  pub take-all : (xs : List A) → take (length xs) xs ≡ xs
  take-all [] = refl
  take-all (x ∷ xs) = ap (◌∷◌ x) (take-all xs)

  pub take-prefix : (k : ℕ) (xs ys : List A) → length xs ≡ k → take k (xs ++ ys) ≡ xs
  take-prefix zero [] ys h = refl
  take-prefix zero (x ∷ xs) ys h = absurd (omega arith)
  take-prefix (suc k) [] ys h = absurd (omega arith)
  take-prefix (suc k) (x ∷ xs) ys h = ap (◌∷◌ x) (take-prefix k xs ys (omega arith))

  pub drop-prefix : (k : ℕ) (xs ys : List A) → length xs ≡ k → drop k (xs ++ ys) ≡ ys
  drop-prefix zero [] ys h = refl
  drop-prefix zero (x ∷ xs) ys h = absurd (omega arith)
  drop-prefix (suc k) [] ys h = absurd (omega arith)
  drop-prefix (suc k) (x ∷ xs) ys h = drop-prefix k xs ys (omega arith)

  pub get_or-take :
      (n : ℕ) (xs : List A) (i : ℕ) (d : A)
      → get_or (take n xs) i d ≡ (if ltb i n then get_or xs i d else d)
  get_or-take zero xs i d = ground arith
  get_or-take (suc n) [] i d = ground arith
  get_or-take (suc n) (x ∷ xs) zero d = ground arith
  get_or-take (suc n) (x ∷ xs) (suc i) d = ground (arith, get_or-take n xs i d)

  pub List-cases : (xs : List A) → (xs ≡ []) ⊎ ((x : A) × (rest : List A) × (xs ≡ x ∷ rest))
  List-cases [] = inl refl
  List-cases (x ∷ xs) = inr (x, xs, refl)

  pub Nonempty-cases : (xs : List A) → 0 < length xs → (x : A) × (rest : List A) × (xs ≡ x ∷ rest)
  Nonempty-cases [] h = absurd (omega arith)
  Nonempty-cases (x ∷ xs) h = (x, xs, refl)

module _ {ℓ κ} {A : Type ℓ} {B : Type κ} where
  pub length-map : (f : A → B) (xs : List A) → length (map f xs) ≡ length xs
  length-map f [] = refl
  length-map f (x ∷ xs) = ap suc (length-map f xs)

  pub get_or-const : (xs : List A) (i : ℕ) (d : B) → get_or (map (λ _. d) xs) i d ≡ d
  get_or-const [] i d = refl
  get_or-const (x ∷ xs) zero d = refl
  get_or-const (x ∷ xs) (suc i) d = get_or-const xs i d

-- Whether a number is in a list.
abbrev pub elem : ℕ → List ℕ → Bool
elem a [] = false
elem a (x ∷ xs) = a == x || elem a xs

pub elem-append : (a : ℕ) (xs ys : List ℕ) → elem a (xs ++ ys) ≡ (elem a xs || elem a ys)
elem-append a [] ys = refl
elem-append a (x ∷ xs) ys = ground (arith, elem-append a xs ys)

-- The entries below `n`, and a list of flags counted.
abbrev pub AllLt : ℕ → List ℕ → Type 0
AllLt n [] = Unit {0}
AllLt n (x ∷ xs) = (x < n) × AllLt n xs

pub elem-lt : (n a : ℕ) (xs : List ℕ) → AllLt n xs → elem a xs ≡ true → a < n
elem-lt n a [] h m = cc
elem-lt n a (x ∷ xs) h m = ground (arith, elem-lt n a xs h.1)

-- `count` numbers from `first` on.
abbrev pub range : ℕ → ℕ → List ℕ
range first zero = []
range first (suc count) = first ∷ range (suc first) count

abbrev pub Distinct : List ℕ → Type 0
Distinct [] = Unit {0}
Distinct (x ∷ xs) = (elem x xs ≡ false) × Distinct xs

pub elem-range :
    (a first count : ℕ) → elem a (range first count) ≡ (leb first a && ltb a (first + count))
elem-range a first zero = ground arith
elem-range a first (suc count) = ground (arith, elem-range a (suc first) count)

pub range-Distinct : (first count : ℕ) → Distinct (range first count)
range-Distinct first zero = tt
range-Distinct first (suc count) =
    (ground (arith, elem-range first (suc first) count), range-Distinct (suc first) count)

pub range-AllLt : (n first count : ℕ) → first + count ≤ n → AllLt n (range first count)
range-AllLt n first zero h = tt
range-AllLt n first (suc count) h = (omega arith, range-AllLt n (suc first) count (omega arith))

pub length-range : (first count : ℕ) → length (range first count) ≡ count
length-range first zero = refl
length-range first (suc count) = ap suc (length-range (suc first) count)

module _ {ℓ} {A : Type ℓ} where
  pub get_or-map-range :
      (f : ℕ → A) (first count i : ℕ) (d : A)
      → i < count
      → get_or (map f (range first count)) i d ≡ f (first + i)
  get_or-map-range f first zero i d h = absurd (omega arith)
  get_or-map-range f first (suc count) zero d h = ap f (omega arith)
  get_or-map-range f first (suc count) (suc i) d h =
      get_or-map-range f (suc first) count i d (omega arith) ∙ ap f (omega arith)

pub get_or-range : (first count i d : ℕ) → i < count → get_or (range first count) i d ≡ first + i
get_or-range first zero i d h = absurd (omega arith)
get_or-range first (suc count) zero d h = omega arith
get_or-range first (suc count) (suc i) d h =
    get_or-range (suc first) count i d (omega arith) ∙ omega arith
