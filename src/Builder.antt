-- ===== src/Builder.antt =====
-- The class BuilderBase of src/builder.h: from a list of edges to a graph in CSR form.
pub mod Prefix
pub mod Blocks
pub mod Arcs
pub mod Slots
pub mod Stored
pub mod Built
pub mod Squish
use gapbs_bfs_experiment.Base.{
  ℕ, zero, suc, ◌+◌, ◌-◌, ◌%◌, ◌^◌, max, Option, none, some, ltb, Bool, true, false, not, ◌&&◌,
  ◌||◌, List, [], ◌∷◌, foldl, get_or, set, replicate, if◌then◌else◌,
}
use gapbs_bfs_experiment.Graph.{Graph, gen_index, undirected_graph, directed_graph}
use gapbs_bfs_experiment.Builder.Prefix.{parallel_prefix_sum}

-- EdgePair of unweighted edges.
pub record EdgePair : Type 0 where
  pub u : ℕ
  pub v : ℕ

-- What the builder takes from the command line, and the block size of its prefix sums (1 << 20).
pub record Settings : Type 0 where
  pub symmetrize : Bool
  pub in_place : Bool
  pub block_size : ℕ

unfoldable pub find_max_node_id : List EdgePair → ℕ
find_max_node_id el = foldl (λ max_seen e. max (max max_seen e.u) e.v) 0 el

-- fetch_and_add(array[i], 1)
abbrev pub add_one : List ℕ → ℕ → List ℕ
add_one array i = set array i (get_or array i 0 + 1)

-- fetch_and_add(degrees[i], 1): a counter is a signed 32-bit number, here its bits.
abbrev pub count_one : List ℕ → ℕ → List ℕ
count_one degrees i = set degrees i ((get_or degrees i 0 + 1) % 2 ^ 32)

-- The body of the loop of CountDegrees.
unfoldable pub count_edge : Settings → Bool → List ℕ → EdgePair → List ℕ
count_edge o transpose degrees e =
    let counted =
      if o.symmetrize || not o.symmetrize && not transpose
      then count_one degrees e.u
      else degrees in
    if o.symmetrize && not o.in_place || not o.symmetrize && transpose
    then count_one counted e.v
    else counted

unfoldable pub count_degrees : Settings → ℕ → Bool → List EdgePair → List ℕ
unfolding count_edge
count_degrees o num_nodes transpose el = foldl (count_edge o transpose) (replicate num_nodes 0) el

-- The neighbour array, and for each vertex the slot for its next neighbour.
pub record Filling : Type 0 where
  pub neighs : List ℕ
  pub offsets : List ℕ

-- neighs[fetch_and_add(offsets[source], 1)] = target
unfoldable pub place : Filling → ℕ → ℕ → Filling
place f source target = record {
  neighs = set f.neighs (get_or f.offsets source 0) target;
  offsets = add_one f.offsets source;
}

-- The body of the loop of MakeCSR.
unfoldable pub place_edge : Settings → Bool → Filling → EdgePair → Filling
unfolding place
place_edge o transpose f e =
    let placed = if o.symmetrize || not o.symmetrize && not transpose then place f e.u e.v else f in
    if o.symmetrize || not o.symmetrize && transpose then place placed e.v e.u else placed

-- The index and the neighbours; `fresh` stands for what the new arrays hold.
unfoldable pub make_csr : Settings → ℕ → ℕ → List EdgePair → Bool → List ℕ × List ℕ
unfolding count_degrees place_edge
make_csr o fresh num_nodes el transpose =
    let degrees = count_degrees o num_nodes transpose el in
    let offsets = parallel_prefix_sum o.block_size fresh degrees in
    let f =
      foldl (place_edge o transpose)
        (record { neighs = replicate (get_or offsets num_nodes 0) fresh; offsets = offsets }) el in
    (gen_index 0 offsets, f.neighs)

-- MakeGraphFromEL where the edges are unweighted and not built in place. The number of nodes is added
-- up in NodeID_: where it does not fit 31 bits it overflows to a negative number, and no array of that
-- size can be made (none).
unfoldable pub make_graph_from_el : Settings → ℕ → List EdgePair → Option Graph
unfolding find_max_node_id make_csr
make_graph_from_el o fresh el =
    let num_nodes = find_max_node_id el + 1 in
    let (index, neighs) = make_csr o fresh num_nodes el false in
    let (inv_index, inv_neighs) = make_csr o fresh num_nodes el true in
    let g =
      if o.symmetrize
      then undirected_graph num_nodes index neighs
      else directed_graph num_nodes index neighs inv_index inv_neighs in
    if ltb num_nodes (2 ^ 31) then some g else none
