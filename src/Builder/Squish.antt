-- ===== src/Builder/Squish.antt =====
-- What SquishCSR of src/builder.h does to the neighbours of one vertex.
use gapbs_bfs_experiment.Base.{
  ℕ, suc, ◌≤◌, ◌≡◌, refl, arith, not, ◌&&◌, ◌||◌, List, [], ◌∷◌, elem, leb, if◌then◌else◌, inl, inr,
  Bool-cases, ◌==◌, ==→eq,
}

-- std::sort on vertex ids, of which equal ones cannot be told apart.
unfoldable pub insert : ℕ → List ℕ → List ℕ
insert a [] = a ∷ []
insert a (x ∷ xs) = if leb a x then a ∷ x ∷ xs else x ∷ insert a xs

unfoldable pub sort : List ℕ → List ℕ
unfolding insert
sort [] = []
sort (x ∷ xs) = insert x (sort xs)

-- std::unique: drops an item equal to the one kept before it.
unfoldable pub unique_after : ℕ → List ℕ → List ℕ
unique_after kept [] = []
unique_after kept (x ∷ xs) = if kept == x then unique_after kept xs else x ∷ unique_after x xs

unfoldable pub unique : List ℕ → List ℕ
unfolding unique_after
unique [] = []
unique (x ∷ xs) = x ∷ unique_after x xs

-- std::remove
unfoldable pub remove : ℕ → List ℕ → List ℕ
remove n [] = []
remove n (x ∷ xs) = if x == n then remove n xs else x ∷ remove n xs

-- The neighbours of vertex `n` that are kept: from n_start to new_end.
unfoldable pub squish_neighbors : ℕ → List ℕ → List ℕ
unfolding sort unique remove
squish_neighbors n neighs = remove n (unique (sort neighs))

-- Ordered from `low` on: each item is at least the one before.
abbrev Ascending : ℕ → List ℕ → Type 0
Ascending low [] = Unit {0}
Ascending low (x ∷ xs) = (low ≤ x) × Ascending x xs

-- Each item is above the one before, and the first is not below `low`.
abbrev pub Increasing : ℕ → List ℕ → Type 0
Increasing low [] = Unit {0}
Increasing low (x ∷ xs) = (low ≤ x) × Increasing (suc x) xs

Ascending-lower : (low low' : ℕ) (xs : List ℕ) → low' ≤ low → Ascending low xs → Ascending low' xs
Ascending-lower low low' [] h s = tt
Ascending-lower low low' (x ∷ xs) h s = (omega (arith, s.0), s.1)

Increasing-lower :
    (low low' : ℕ) (xs : List ℕ) → low' ≤ low → Increasing low xs → Increasing low' xs
Increasing-lower low low' [] h s = tt
Increasing-lower low low' (x ∷ xs) h s = (omega (arith, s.0), s.1)

insert-Ascending :
    (low a : ℕ) (xs : List ℕ) → low ≤ a → Ascending low xs → Ascending low (insert a xs)
unfolding insert
insert-Ascending low a [] h s = (h, tt)
insert-Ascending low a (x ∷ xs) h s = elim (Bool-cases (leb a x)) [
  | inl e ↦ rw e (h, (ground arith, s.1))
  | inr e ↦ rw e (s.0, insert-Ascending x a xs (ground arith) s.1)
]

sort-Ascending : (xs : List ℕ) → Ascending 0 (sort xs)
unfolding sort
sort-Ascending [] = tt
sort-Ascending (x ∷ xs) = insert-Ascending 0 x (sort xs) (omega arith) (sort-Ascending xs)

unique_after-Increasing :
    (kept : ℕ) (xs : List ℕ) → Ascending kept xs → Increasing (suc kept) (unique_after kept xs)
unfolding unique_after
unique_after-Increasing kept [] s = tt
unique_after-Increasing kept (x ∷ xs) s = elim (Bool-cases (kept == x)) [
  | inl e ↦
      let same : kept ≡ x = ==→eq kept x e in
      rw e (unique_after-Increasing kept xs (Ascending-lower x kept xs (omega arith) s.1))
  | inr e ↦ rw e (ground (arith, s.0), unique_after-Increasing x xs s.1)
]

unique-Increasing : (xs : List ℕ) → Ascending 0 xs → Increasing 0 (unique xs)
unfolding unique
unique-Increasing [] s = tt
unique-Increasing (x ∷ xs) s = (s.0, unique_after-Increasing x xs s.1)

remove-Increasing : (n low : ℕ) (xs : List ℕ) → Increasing low xs → Increasing low (remove n xs)
unfolding remove
remove-Increasing n low [] s = tt
remove-Increasing n low (x ∷ xs) s = elim (Bool-cases (x == n)) [
  | inl e ↦
      rw e (remove-Increasing n low xs (Increasing-lower (suc x) low xs (omega (arith, s.0)) s.1))
  | inr e ↦ rw e (s.0, remove-Increasing n (suc x) xs s.1)
]

elem-insert : (v a : ℕ) (xs : List ℕ) → elem v (insert a xs) ≡ (v == a || elem v xs)
unfolding insert
elem-insert v a [] = ground arith
elem-insert v a (x ∷ xs) = elim (Bool-cases (leb a x)) [
  | inl e ↦ rw e refl
  | inr e ↦ rw e (ground (arith, elem-insert v a xs))
]

elem-sort : (v : ℕ) (xs : List ℕ) → elem v (sort xs) ≡ elem v xs
unfolding sort
elem-sort v [] = refl
elem-sort v (x ∷ xs) = ground (arith, elem-insert v x (sort xs), elem-sort v xs)

elem-unique_after :
    (v kept : ℕ) (xs : List ℕ)
    → (v == kept || elem v (unique_after kept xs)) ≡ (v == kept || elem v xs)
unfolding unique_after
elem-unique_after v kept [] = refl
elem-unique_after v kept (x ∷ xs) = elim (Bool-cases (kept == x)) [
  | inl e ↦
      let same : kept ≡ x = ==→eq kept x e in rw e (ground (arith, elem-unique_after v kept xs))
  | inr e ↦ rw e (ground (arith, elem-unique_after v x xs))
]

elem-unique : (v : ℕ) (xs : List ℕ) → elem v (unique xs) ≡ elem v xs
unfolding unique
elem-unique v [] = refl
elem-unique v (x ∷ xs) = elem-unique_after v x xs

elem-remove : (v n : ℕ) (xs : List ℕ) → elem v (remove n xs) ≡ (elem v xs && not (v == n))
unfolding remove
elem-remove v n [] = refl
elem-remove v n (x ∷ xs) = elim (Bool-cases (x == n)) [
  | inl e ↦ let same : x ≡ n = ==→eq x n e in rw e (ground (arith, elem-remove v n xs))
  | inr e ↦ rw e (ground (arith, elem-remove v n xs))
]

-- The neighbours kept for vertex `n` are in increasing order, so none occurs twice, and they are those
-- it had but `n` itself.
pub squish_neighbors_lem :
    (n : ℕ) (neighs : List ℕ)
    → Increasing 0 (squish_neighbors n neighs)
      × ((v : ℕ) → elem v (squish_neighbors n neighs) ≡ (elem v neighs && not (v == n)))
unfolding squish_neighbors
squish_neighbors_lem n neighs = (
  remove-Increasing n 0 (unique (sort neighs))
      (unique-Increasing (sort neighs) (sort-Ascending neighs)),
  λ v. ground (
    arith,
    elem-remove v n (unique (sort neighs)),
    elem-unique v (sort neighs),
    elem-sort v neighs,
  ),
)
