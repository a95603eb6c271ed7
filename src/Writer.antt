-- ===== src/Writer.antt =====
-- The class WriterBase of src/writer.h for graphs without weights.
pub mod Numbers
pub mod EdgeList
use gapbs_bfs_experiment.Base.{
  ℕ, Bool, true, false, not, List, [], ◌∷◌, ◌++◌, map, if◌then◌else◌, Text, codes, ◌≟◌, decimal,
  Exit, done, ◌>>=◌,
}
use gapbs_bfs_experiment.Graph.{Graph, out_neigh, vertices}
use gapbs_bfs_experiment.Reader.Matrix.{fails}
use gapbs_bfs_experiment.Serialized.{Types, write_serialized_graph}

-- The lines of the edges out of `u`, in front of `rest`.
unfoldable pub write_lines : ℕ → List ℕ → Text → Text
write_lines u [] rest = rest
write_lines u (v ∷ vs) rest = decimal u ++ (b' ' ∷ (decimal v ++ (b'\n' ∷ write_lines u vs rest)))

unfoldable pub write_vertices : Graph → List ℕ → Text
write_vertices g [] = []
write_vertices g (u ∷ us) = write_lines u (out_neigh g u 0) (write_vertices g us)

unfoldable pub write_el : Graph → Text
write_el g = write_vertices g (vertices g)

-- `opens` says which files can be opened, and the result is what the file holds then.
unfoldable pub write_graph : (Text → Bool) → Types → Graph → Text → Bool → Exit Text
write_graph opens t g filename serialized =
    if filename ≟ []
    then fails 7 (codes "No output filename given (Use -h for help)")
    else if not (opens filename)
    then fails 4 (codes "Couldn't write to file " ++ filename)
    else if serialized
    then write_serialized_graph t g
    else done (write_el g)
