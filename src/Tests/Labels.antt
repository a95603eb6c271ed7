-- ===== src/Tests/Labels.antt =====
-- Connected components of src/cc.cc and src/cc_sv.cc on a graph with two of them.
use gapbs_bfs_experiment.Base.{ℕ, ◌≡◌, refl, arith, some, List, [], ◌∷◌}
use gapbs_bfs_experiment.Graph.{
  Graph, IsValid, directed_graph, out_neigh, in_neigh, out_degree, vertices,
}
use gapbs_bfs_experiment.Graph.Check.{valid_graph, valid_graph-IsValid}
use gapbs_bfs_experiment.Components.Link.{Joined, link-Joined}
use gapbs_bfs_experiment.Components.Afforest.{Labels, afforest-Labels, init-Sound}
use gapbs_bfs_experiment.Components.Hooking.{shiloach_vishkin-Labels}
use gapbs_bfs_experiment.Components.{
  link, link_loop, link_all, for_each, compress, compress_vertex, compress_loop, init_comp,
  sample_vertex, sample_round, sample_rounds, finish_vertex, afforest, hook_edge, hook_edges,
  hook_vertices, sv_loop, shiloach_vishkin,
}

-- 2 → 0, 3 → 1
unfoldable two_pairs : Graph
unfolding directed_graph
two_pairs =
    directed_graph 4 (0 ∷ 0 ∷ 0 ∷ 1 ∷ 2 ∷ []) (0 ∷ 1 ∷ []) (0 ∷ 1 ∷ 2 ∷ 2 ∷ 2 ∷ []) (2 ∷ 3 ∷ [])

two_pairs-IsValid : IsValid two_pairs
unfolding two_pairs valid_graph out_neigh in_neigh out_degree
two_pairs-IsValid = valid_graph-IsValid two_pairs refl

-- The component that is passed over is that of 0.
afforest_runs :
    (afforest (λ comp. 0) two_pairs 0 ≡ some (0 ∷ 1 ∷ 0 ∷ 1 ∷ []))
    × (afforest (λ comp. 0) two_pairs 2 ≡ some (0 ∷ 1 ∷ 0 ∷ 1 ∷ []))
    × (shiloach_vishkin two_pairs ≡ some (0 ∷ 1 ∷ 0 ∷ 1 ∷ []))
unfolding two_pairs out_neigh in_neigh vertices link link_loop link_all for_each compress
    compress_vertex compress_loop init_comp sample_vertex sample_round sample_rounds finish_vertex
    afforest hook_edge hook_edges hook_vertices sv_loop shiloach_vishkin
afforest_runs = (refl, refl, refl)

link-Joined_example : Joined 4 (λ x. x) 2 3 (link 2 3 (init_comp two_pairs))
unfolding two_pairs
link-Joined_example =
    link-Joined 2 3 (init_comp two_pairs) (init-Sound two_pairs two_pairs-IsValid).roots
      (omega arith) (omega arith)

afforest-Labels_example :
    (comp : List ℕ) × (afforest (λ comp. 0) two_pairs 1 ≡ some comp) × Labels two_pairs comp
unfolding two_pairs
afforest-Labels_example = afforest-Labels two_pairs two_pairs-IsValid (λ comp. 0) 1 (λ e. cc)

shiloach_vishkin-Labels_example :
    (comp : List ℕ) × (shiloach_vishkin two_pairs ≡ some comp) × Labels two_pairs comp
shiloach_vishkin-Labels_example = shiloach_vishkin-Labels two_pairs two_pairs-IsValid
