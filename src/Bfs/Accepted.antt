-- ===== src/Bfs/Accepted.antt =====
-- The search of src/bfs.cc against its own verifier.
use gapbs_bfs_experiment.Base.{ℕ, ◌<◌, ◌≡◌, ◌∙◌, ap, true, List, some, ℤ}
use gapbs_bfs_experiment.Graph.{Graph, IsValid}
use gapbs_bfs_experiment.Bfs.Search.{Tuning, dobfs}
use gapbs_bfs_experiment.Bfs.Search.Phases.{IsSound}
use gapbs_bfs_experiment.Bfs.Search.Correct.{dobfs_lem}
use gapbs_bfs_experiment.Bfs.Verifier.{bfs_verifier}
use gapbs_bfs_experiment.Bfs.Verifier.Accepts.{bfs_verifier_lem}

-- On a valid graph, from any source vertex, for every alpha but 0, every limit of bottom-up
-- rounds and every positive beta and buffer size, the search ends and the verifier ends and accepts its result.
pub bfs_verifier-dobfs :
    (g : Graph) (o : Tuning) (source : ℕ)
    → IsValid g
    → IsSound o
    → source < g.num_nodes
    → (parent : List ℤ) × (dobfs g o source ≡ some parent)
      × (bfs_verifier g source parent ≡ some true)
bfs_verifier-dobfs g o source valid sound inside =
    let (parent, runs, t) = dobfs_lem g o source valid sound inside in
    let (accepted, says, iff) = bfs_verifier_lem g source parent valid inside t.size in
    (parent, runs, says ∙ ap (λ b. some b) (iff.1 t))
