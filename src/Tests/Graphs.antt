-- ===== src/Tests/Graphs.antt =====
-- The builder of src/builder.h on four edges.
use gapbs_bfs_experiment.Base.{
  elem, not, ◌&&◌, ◌==◌, ℕ, ◌≡◌, refl, arith, false, some, List, [], ◌∷◌,
}
use gapbs_bfs_experiment.Graph.{Graph, neighborhood, gen_index, IsValid}
use gapbs_bfs_experiment.Builder.{
  EdgePair, Settings, make_csr, count_degrees, count_edge, place_edge, place, make_graph_from_el,
  find_max_node_id,
}
use gapbs_bfs_experiment.Builder.Prefix.{
  prefix_sum, parallel_prefix_sum, num_blocks, block_sum, block_range, write_block,
}
use gapbs_bfs_experiment.Builder.Blocks.{parallel_prefix_sum_lem}
use gapbs_bfs_experiment.Builder.Arcs.{arcs, targets}
use gapbs_bfs_experiment.Builder.Stored.{neighborhood-make_csr}
use gapbs_bfs_experiment.Builder.Squish.{
  insert, sort, unique_after, unique, remove, squish_neighbors, squish_neighbors_lem, Increasing,
}
use gapbs_bfs_experiment.Builder.Built.{make_graph_from_el-IsValid}

abbrev edges : List EdgePair
edges =
    record { u = 0; v = 2 }
    ∷ record { u = 2; v = 1 }
    ∷ record { u = 0; v = 1 }
    ∷ record { u = 3; v = 0 }
    ∷ []

abbrev settings : Settings
settings = record { symmetrize = false; in_place = false; block_size = 2 }

-- Blocks of two entries over five, and arrays that hold 9 at first.
abbrev five : List ℕ
five = 3 ∷ 1 ∷ 4 ∷ 1 ∷ 5 ∷ []

parallel_prefix_sum_runs : parallel_prefix_sum 2 9 five ≡ 0 ∷ 3 ∷ 4 ∷ 8 ∷ 9 ∷ 14 ∷ []
unfolding parallel_prefix_sum num_blocks block_sum write_block block_range
parallel_prefix_sum_runs = refl

parallel_prefix_sum_lem_example : parallel_prefix_sum 2 9 five ≡ prefix_sum 7 five
parallel_prefix_sum_lem_example = parallel_prefix_sum_lem 2 (omega arith) five 9 7

make_csr_runs : make_csr settings 9 4 edges false ≡ (0 ∷ 2 ∷ 2 ∷ 3 ∷ 4 ∷ [], 2 ∷ 1 ∷ 1 ∷ 0 ∷ [])
unfolding make_csr count_degrees count_edge place_edge place parallel_prefix_sum num_blocks
    block_sum write_block block_range gen_index
make_csr_runs = refl

neighborhood-make_csr_example :
    let (index, neighs) = make_csr settings 9 4 edges false in
    neighborhood index neighs 0 0 ≡ targets 0 (arcs settings.symmetrize false edges)
neighborhood-make_csr_example =
    neighborhood-make_csr settings 9 4 edges false refl (omega arith)
      (omega arith, (omega arith, (omega arith, (omega arith, tt)))) (omega arith) 0 (omega arith)

make_graph_from_el-IsValid_example :
    (built : Graph) × (make_graph_from_el settings 9 edges ≡ some built) × IsValid built
unfolding find_max_node_id
make_graph_from_el-IsValid_example =
    make_graph_from_el-IsValid settings 9 edges refl (omega arith) (omega arith) (omega arith)

squish_neighbors_lem_example :
    Increasing 0 (squish_neighbors 2 (5 ∷ 2 ∷ 1 ∷ 5 ∷ []))
    × ((v : ℕ)
        → elem v (squish_neighbors 2 (5 ∷ 2 ∷ 1 ∷ 5 ∷ []))
          ≡ (elem v (5 ∷ 2 ∷ 1 ∷ 5 ∷ []) && not (v == 2)))
squish_neighbors_lem_example = squish_neighbors_lem 2 (5 ∷ 2 ∷ 1 ∷ 5 ∷ [])

squish_neighbors_runs : squish_neighbors 2 (5 ∷ 2 ∷ 1 ∷ 5 ∷ []) ≡ 1 ∷ 5 ∷ []
unfolding squish_neighbors sort insert unique unique_after remove
squish_neighbors_runs = refl
