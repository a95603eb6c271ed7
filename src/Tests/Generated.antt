-- ===== src/Tests/Generated.antt =====
-- The generator of src/generator.h with small engines.
use gapbs_bfs_experiment.Base.{◌+◌, ◌-◌, ◌*◌, ◌%◌, ◌^◌, ◌≡◌, refl, arith, true, some, [], ◌∷◌, done}
use gapbs_bfs_experiment.Generator.Blocks.{Makes, EndsBelow, IsLucky}
use gapbs_bfs_experiment.Generator.EdgeLists.{generate_el-Makes}
use gapbs_bfs_experiment.Generator.{
  Engine, Generator, new_uni_dist, draw, draw_below, new_generator, by_blocks, uniform_edges,
  make_uniform_el, rmat_edge, rmat_edges, permute_ids, make_rmat_el, generate_el,
}

abbrev counting : Engine
counting seed i = seed + i

abbrev zeros : Engine
zeros seed i = 0

abbrev tiny : Generator
tiny = record { scale = 1; num_nodes = 2; num_edges = 4 }

program : Unit {0}
unfolding new_uni_dist draw draw_below new_generator by_blocks uniform_edges make_uniform_el
    rmat_edge rmat_edges permute_ids make_rmat_el generate_el
program = tt

uniform_runs :
    generate_el counting (λ xs. xs) 3 1 true tiny
    ≡ some (
        record { u = 1; v = 0 }
        ∷ record { u = 1; v = 0 }
        ∷ record { u = 1; v = 0 }
        ∷ record { u = 0; v = 1 }
        ∷ [])
unfolding program
uniform_runs = refl

-- An engine of 64-bit numbers: the cutoff is cut to 32 bits, and is then no multiple of the modulus.
wide_cutoff :
    ((new_uni_dist (2 ^ 64 - 1) 6).modulus ≡ 7) × ((new_uni_dist (2 ^ 64 - 1) 6).cutoff % 7 ≡ 2)
unfolding new_uni_dist
wide_cutoff = (refl, refl)

zeros-IsLucky : IsLucky zeros 1 (2 ^ 4 - 1)
unfolding new_uni_dist
zeros-IsLucky seed i = (0, omega arith, omega arith)

generate_el-Makes_example :
    (g : Generator) × (new_generator 4 16 ≡ done g)
    × Makes (EndsBelow (2 ^ 4)) (2 ^ 4 * 16) (generate_el zeros (λ xs. xs) 100 1 true g)
generate_el-Makes_example =
    generate_el-Makes zeros (λ xs. xs) 100 1 4 16 true (omega arith) (omega arith) zeros-IsLucky
      (λ n xs h. (h, refl))
