-- ===== src/Tests/Ranking.antt =====
-- TopK of src/benchmark.h on five pairs.
use gapbs_bfs_experiment.Base.{ℕ, ◌≡◌, refl, arith, List, [], ◌∷◌}
use gapbs_bfs_experiment.Benchmark.Largest.{Largest, top_k-Largest}
use gapbs_bfs_experiment.Benchmark.{Ranked, greater, put_pair, sort_greater, rank, rank_all, top_k}

abbrev pair : ℕ → ℕ → Ranked
pair value key = record { value = value; key = key }

-- Two of the pairs have one value, and the first of them is kept.
abbrev sizes : List Ranked
sizes = pair 3 0 ∷ pair 5 1 ∷ pair 7 2 ∷ pair 5 3 ∷ pair 1 4 ∷ []

top_k_runs : top_k sizes 2 ≡ pair 7 2 ∷ pair 5 1 ∷ []
unfolding greater put_pair sort_greater rank rank_all top_k
top_k_runs = refl

top_k-Largest_example : Largest 2 sizes (top_k sizes 2)
top_k-Largest_example = top_k-Largest 2 (omega arith) sizes
