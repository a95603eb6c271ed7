-- ===== src/Tests/Triangles.antt =====
-- OrderedCount of src/tc.cc on a graph with one triangle.
use gapbs_bfs_experiment.Base.{ℕ, ◌<◌, elem, not, true, false, arith, ◌≡◌, refl, some, [], ◌∷◌}
use gapbs_bfs_experiment.Graph.{
  Graph, IsValid, undirected_graph, out_neigh, in_neigh, out_degree, vertices,
}
use gapbs_bfs_experiment.Graph.Check.{all_below_sound, valid_graph, valid_graph-IsValid}
use gapbs_bfs_experiment.Triangles.Scan.{ascending}
use gapbs_bfs_experiment.Triangles.Simple.{simple_triangles, ordered_count_lem}
use gapbs_bfs_experiment.Triangles.{scan_to, count_with, count_edges, count_vertices, ordered_count}

-- 0 – 1, 0 – 2, 1 – 2 and 2 – 3
unfoldable kite : Graph
unfolding undirected_graph
kite = undirected_graph 4 (0 ∷ 2 ∷ 4 ∷ 7 ∷ 8 ∷ []) (1 ∷ 2 ∷ 0 ∷ 2 ∷ 0 ∷ 1 ∷ 3 ∷ 2 ∷ [])

kite-IsValid : IsValid kite
unfolding kite valid_graph out_neigh in_neigh out_degree
kite-IsValid = valid_graph-IsValid kite refl

ordered_count_runs : ordered_count kite ≡ some 1
unfolding kite out_neigh vertices scan_to count_with count_edges count_vertices ordered_count
ordered_count_runs = refl

-- One vertex with an edge to itself, which counts as a triangle.
unfoldable looped : Graph
unfolding undirected_graph
looped = undirected_graph 1 (0 ∷ 1 ∷ []) (0 ∷ [])

ordered_count_of_loop : ordered_count looped ≡ some 1
unfolding looped out_neigh vertices scan_to count_with count_edges count_vertices ordered_count
ordered_count_of_loop = refl

no_kite_loop : (u : ℕ) → u < 4 → elem u (out_neigh kite u 0) ≡ false
unfolding kite out_neigh
no_kite_loop u h =
    let loop_free : not (elem u (out_neigh kite u 0)) ≡ true =
      all_below_sound 4 (λ v. not (elem v (out_neigh kite v 0))) u refl h in
    ground (arith, loop_free)

ordered_count_lem_example : ordered_count kite ≡ some (simple_triangles kite (vertices kite))
unfolding kite out_neigh in_neigh
ordered_count_lem_example =
    ordered_count_lem kite no_kite_loop kite-IsValid (λ u. refl)
      (λ u h. all_below_sound 4 (λ v. ascending 0 (out_neigh kite v 0)) u refl h)
