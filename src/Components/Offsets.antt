-- ===== src/Components/Offsets.antt =====
-- The neighbours from an offset on, as Afforest (src/cc.cc) takes them from src/graph.h.
use gapbs_bfs_experiment.Base.{
  ℕ, zero, suc, ◌+◌, ◌-◌, ◌<◌, min, ◌≡◌, ◌⊎◌, refl, sym, ap, ◌∙◌, arith, true, List, [], ◌∷◌,
  get_or, take, drop, elem, ◌==◌, ==→eq, Bool-cases, inl, inr, leb,
}
use gapbs_bfs_experiment.Graph.{Graph, neighborhood, out_neigh}

drop-nil : (k : ℕ) → drop {A = ℕ} k [] ≡ []
drop-nil zero = refl
drop-nil (suc k) = refl

take-nil : (k : ℕ) → take {A = ℕ} k [] ≡ []
take-nil zero = refl
take-nil (suc k) = refl

take_zero : (k : ℕ) (xs : List ℕ) → k ≡ 0 → take k xs ≡ []
take_zero zero xs h = refl
take_zero (suc k) xs h = absurd (omega arith)

drop-drop : (a b : ℕ) (xs : List ℕ) → drop a (drop b xs) ≡ drop (b + a) xs
drop-drop a zero xs = ap (λ k. drop k xs) (omega arith)
drop-drop a (suc b) [] = drop-nil a ∙ sym (drop-nil (suc b + a))
drop-drop a (suc b) (x ∷ xs) =
    drop-drop a b xs ∙ (let same : suc b + a ≡ suc (b + a) = omega arith in rw same refl)

drop-take : (s m : ℕ) (xs : List ℕ) → drop s (take m xs) ≡ take (m - s) (drop s xs)
drop-take zero m xs = ap (λ k. take k xs) (omega arith)
drop-take (suc s) zero xs = sym (take_zero (0 - suc s) (drop (suc s) xs) (omega arith))
drop-take (suc s) (suc m) [] = sym (take-nil (suc m - suc s))
drop-take (suc s) (suc m) (x ∷ xs) = drop-take s m xs ∙ ap (λ k. take k (drop s xs)) (omega arith)

slice-offset :
    (f e s : ℕ) (xs : List ℕ)
    → take (e - (f + min s (e - f))) (drop (f + min s (e - f)) xs)
      ≡ drop s (take (e - (f + min 0 (e - f))) (drop (f + min 0 (e - f)) xs))
slice-offset f e s xs =
    let from_zero : f + min 0 (e - f) ≡ f = omega arith in
    let whole : drop s (take (e - f) (drop f xs)) ≡ take (e - f - s) (drop (f + s) xs) =
      drop-take s (e - f) (drop f xs) ∙ ap (take (e - f - s)) (drop-drop s f xs) in
    rw from_zero (elim (Bool-cases (leb s (e - f))) [
      | inl inside ↦
          let same : min s (e - f) ≡ s = ground arith in
          rw same (ap (λ k. take k (drop (f + s) xs)) (omega arith) ∙ sym whole)
      | inr past ↦
          take_zero (e - (f + min s (e - f))) (drop (f + min s (e - f)) xs) (ground arith)
          ∙ sym (whole ∙ take_zero (e - f - s) (drop (f + s) xs) (ground arith))
    ])

pub out_neigh-drop : (g : Graph) (u s : ℕ) → out_neigh g u s ≡ drop s (out_neigh g u 0)
unfolding out_neigh neighborhood
out_neigh-drop g u s =
    slice-offset (get_or g.out_index u 0) (get_or g.out_index (u + 1) 0) s g.out_neighbors

-- A member stands among the first `k`, or behind them.
pub split_at :
    (v k : ℕ) (xs : List ℕ)
    → elem v xs ≡ true
    → ((i : ℕ) × (rest : List ℕ) × (i < k) × (drop i xs ≡ v ∷ rest)) ⊎ (elem v (drop k xs) ≡ true)
split_at v zero xs h = inr h
split_at v (suc k) [] h = cc
split_at v (suc k) (x ∷ xs) h = elim (Bool-cases (v == x)) [
  | inl same ↦ inl (0, xs, omega arith, ap (λ y. y ∷ xs) (sym (==→eq v x same)))
  | inr other ↦ elim (split_at v k xs (ground arith)) [
    | inl (i, rest, lt, at) ↦ inl (suc i, rest, omega arith, at)
    | inr behind ↦ inr behind
  ]
]

pub elem-drop : (v k : ℕ) (xs : List ℕ) → elem v (drop k xs) ≡ true → elem v xs ≡ true
elem-drop v zero xs h = h
elem-drop v (suc k) [] h = h
elem-drop v (suc k) (x ∷ xs) h = ground (arith, elem-drop v k xs h)
