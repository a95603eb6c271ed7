-- ===== src/Bfs/Verifier.antt =====
-- BFSVerifier of src/bfs.cc: a serial search, and a test of every entry against it.
pub mod SearchLoop
pub mod Depths
pub mod Accepts
use gapbs_bfs_experiment.Base.{
  ℕ, zero, suc, ◌+◌, Bool, true, false, not, ◌&&◌, Option, none, some, List, [], ◌∷◌, ◌++◌, foldl,
  set, replicate, ℤ, pos, minus_one, eq_ℤ, ◌+ℤ◌, ◌-ℤ◌, ◌==◌, if◌then◌else◌,
}
use gapbs_bfs_experiment.Graph.{Graph, out_neigh, in_neigh, vertices}
use gapbs_bfs_experiment.Bfs.Parent.{parent_at}

-- `to_visit` is the part of the vector that the iterator has not passed.
pub record Visits : Type 0 where
  pub depth : List ℤ
  pub to_visit : List ℕ

abbrev pub depth_at : List ℤ → ℕ → ℤ
depth_at = parent_at

-- The body of the loop over out_neigh(u).
unfoldable pub reach_vertex : ℕ → Visits → ℕ → Visits
reach_vertex u s v =
    if eq_ℤ (depth_at s.depth v) minus_one
    then record {
      depth = set s.depth v (depth_at s.depth u +ℤ pos 1);
      to_visit = s.to_visit ++ v ∷ [];
    }
    else s

-- The loop over to_visit, on fuel.
unfoldable pub depth_loop : Graph → ℕ → List ℤ → List ℕ → Option (List ℤ)
unfolding reach_vertex
depth_loop g fuel depth [] = some depth
depth_loop g zero depth (u ∷ rest) = none
depth_loop g (suc fuel) depth (u ∷ rest) =
    let s = foldl (reach_vertex u) (record { depth = depth; to_visit = rest }) (out_neigh g u 0) in
    depth_loop g fuel s.depth s.to_visit

unfoldable pub depths_from : Graph → ℕ → Option (List ℤ)
unfolding depth_loop
depths_from g source =
    depth_loop g g.num_nodes (set (replicate g.num_nodes minus_one) source (pos 0)) (source ∷ [])

-- The loop over in_neigh(u): `false` where it returns or leaves parent_found unset.
unfoldable pub parent_fits : List ℤ → List ℤ → ℕ → List ℕ → Bool
parent_fits depth parent u [] = false
parent_fits depth parent u (v ∷ vs) =
    if eq_ℤ (pos v) (parent_at parent u)
    then eq_ℤ (depth_at depth v) (depth_at depth u -ℤ pos 1)
    else parent_fits depth parent u vs

-- The body of the loop over the vertices: whether it goes on to the next.
unfoldable pub vertex_fits : Graph → ℕ → List ℤ → List ℤ → ℕ → Bool
unfolding parent_fits
vertex_fits g source depth parent u =
    if not (eq_ℤ (depth_at depth u) minus_one) && not (eq_ℤ (parent_at parent u) minus_one)
    then (if u == source
        then eq_ℤ (parent_at parent u) (pos u) && eq_ℤ (depth_at depth u) (pos 0)
        else parent_fits depth parent u (in_neigh g u 0))
    else eq_ℤ (depth_at depth u) (parent_at parent u)

unfoldable pub all_fit : Graph → ℕ → List ℤ → List ℤ → List ℕ → Bool
unfolding vertex_fits
all_fit g source depth parent [] = true
all_fit g source depth parent (u ∷ us) =
    if vertex_fits g source depth parent u then all_fit g source depth parent us else false

unfoldable pub bfs_verifier : Graph → ℕ → List ℤ → Option Bool
unfolding all_fit
bfs_verifier g source parent = elim (depths_from g source) [
  | none ↦ none
  | some depth ↦ some (all_fit g source depth parent (vertices g))
]
