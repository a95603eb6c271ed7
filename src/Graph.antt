-- ===== src/Graph.antt =====
-- The class CSRGraph of src/graph.h. A pointer into a neighbour array is its offset in the array.
pub mod Check
use gapbs_bfs_experiment.Base.{
  ℕ, zero, suc, ◌+◌, ◌-◌, ◌*◌, ◌/◌, ◌^◌, ◌≤◌, ◌<◌, min, ◌≡◌, Bool, true, false, List, [], ◌∷◌, map,
  get_or, length, take, drop, elem, AllLt, range, if◌then◌else◌,
}

-- The arrays of an undirected graph serve both directions.
pub record Graph : Type 0 where
  pub directed : Bool
  pub num_nodes : ℕ
  pub num_edges : ℕ
  pub out_index : List ℕ
  pub out_neighbors : List ℕ
  pub in_index : List ℕ
  pub in_neighbors : List ℕ

-- CSRGraph(num_nodes, index, neighs)
unfoldable pub undirected_graph : ℕ → List ℕ → List ℕ → Graph
undirected_graph n index neighs = record {
  directed = false;
  num_nodes = n;
  num_edges = (get_or index n 0 - get_or index 0 0) / 2;
  out_index = index;
  out_neighbors = neighs;
  in_index = index;
  in_neighbors = neighs;
}

-- CSRGraph(num_nodes, out_index, out_neighs, in_index, in_neighs)
unfoldable pub directed_graph : ℕ → List ℕ → List ℕ → List ℕ → List ℕ → Graph
directed_graph n out_index out_neighs in_index in_neighs = record {
  directed = true;
  num_nodes = n;
  num_edges = get_or out_index n 0 - get_or out_index 0 0;
  out_index = out_index;
  out_neighbors = out_neighs;
  in_index = in_index;
  in_neighbors = in_neighs;
}

unfoldable pub num_edges_directed : Graph → ℕ
num_edges_directed g = if g.directed then g.num_edges else 2 * g.num_edges

unfoldable pub out_degree : Graph → ℕ → ℕ
out_degree g v = get_or g.out_index (v + 1) 0 - get_or g.out_index v 0

unfoldable pub in_degree : Graph → ℕ → ℕ
in_degree g v = get_or g.in_index (v + 1) 0 - get_or g.in_index v 0

-- The class Neighborhood: what an iteration from begin() to end() reads.
unfoldable pub neighborhood : List ℕ → List ℕ → ℕ → ℕ → List ℕ
neighborhood index neighs n start_offset =
    let first = get_or index n 0 in
    let end = get_or index (n + 1) 0 in
    let offset = min start_offset (end - first) in
    take (end - (first + offset)) (drop (first + offset) neighs)

unfoldable pub out_neigh : Graph → ℕ → ℕ → List ℕ
unfolding neighborhood
out_neigh g n start_offset = neighborhood g.out_index g.out_neighbors n start_offset

unfoldable pub in_neigh : Graph → ℕ → ℕ → List ℕ
unfolding neighborhood
in_neigh g n start_offset = neighborhood g.in_index g.in_neighbors n start_offset

-- index[n] = neighs + offsets[n], with `base` for the pointer neighs
unfoldable pub gen_index : ℕ → List ℕ → List ℕ
gen_index base offsets = map (λ offset. base + offset) offsets

unfoldable pub vertex_offsets : Graph → Bool → List ℕ
vertex_offsets g in_graph =
    map
      (λ n.
        if in_graph
        then get_or g.in_index n 0 - get_or g.in_index 0 0
        else get_or g.out_index n 0 - get_or g.out_index 0 0)
      (range 0 (g.num_nodes + 1))

unfoldable pub vertices : Graph → List ℕ
vertices g = range 0 g.num_nodes

-- An edge from u to v.
abbrev pub Edge : Graph → ℕ → ℕ → Type 0
Edge g u v = elem v (out_neigh g u 0) ≡ true

-- What the builder provides: neighbours are vertices, the incoming lists mirror the outgoing ones, and
-- a degree fits a signed 32-bit number.
pub record IsValid (g : Graph) : Type 0 where
  pub targets : (u : ℕ) → u < g.num_nodes → AllLt g.num_nodes (out_neigh g u 0)
  pub sources : (v : ℕ) → v < g.num_nodes → AllLt g.num_nodes (in_neigh g v 0)
  pub inverse :
      (u v : ℕ)
      → u < g.num_nodes
      → v < g.num_nodes
      → elem v (out_neigh g u 0) ≡ elem u (in_neigh g v 0)
  pub degrees : (u : ℕ) → u < g.num_nodes → out_degree g u < 2 ^ 31
