-- ===== src/Benchmark.antt =====
-- TopK of src/benchmark.h, on values that are not negative.
pub mod Descent
pub mod Largest
use gapbs_bfs_experiment.Base.{
  ℕ, ◌++◌, ◌||◌, ◌&&◌, Bool, List, [], ◌∷◌, length, take, ltb, ◌==◌, if◌then◌else◌,
}

-- std::pair<ValT, KeyT>
pub record Ranked : Type 0 where
  pub value : ℕ
  pub key : ℕ

-- std::greater<std::pair<ValT, KeyT>>
unfoldable pub greater : Ranked → Ranked → Bool
greater p q = ltb q.value p.value || (q.value == p.value && ltb q.key p.key)

-- std::sort by greater, of which equal pairs cannot be told apart.
unfoldable pub put_pair : Ranked → List Ranked → List Ranked
unfolding greater
put_pair p [] = p ∷ []
put_pair p (q ∷ qs) = if greater q p then q ∷ put_pair p qs else p ∷ q ∷ qs

unfoldable pub sort_greater : List Ranked → List Ranked
unfolding put_pair
sort_greater [] = []
sort_greater (p ∷ ps) = put_pair p (sort_greater ps)

-- top_k.back().first
abbrev pub back_value : List Ranked → ℕ
back_value [] = 0
back_value (p ∷ []) = p.value
back_value (p ∷ q ∷ qs) = back_value (q ∷ qs)

pub record Best : Type 0 where
  pub top_k : List Ranked
  pub min_so_far : ℕ

-- The body of the loop over the pairs, on a pair with its value first.
unfoldable pub rank : ℕ → Best → Ranked → Best
unfolding sort_greater
rank k b kvp =
    let sorted = sort_greater (b.top_k ++ kvp ∷ []) in
    let kept = if ltb k (length sorted) then take k sorted else sorted in
    if ltb (length b.top_k) k || ltb b.min_so_far kvp.value
    then record { top_k = kept; min_so_far = back_value kept }
    else b

unfoldable pub rank_all : ℕ → List Ranked → Best → Best
unfolding rank
rank_all k [] b = b
rank_all k (kvp ∷ rest) b = rank_all k rest (rank k b kvp)

unfoldable pub top_k : List Ranked → ℕ → List Ranked
unfolding rank_all
top_k to_sort k = (rank_all k to_sort (record { top_k = []; min_so_far = 0 })).top_k
