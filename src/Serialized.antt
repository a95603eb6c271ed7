-- ===== src/Serialized.antt =====
-- WriteSerializedGraph of src/writer.h and ReadSerializedGraph of src/reader.h for graphs without
-- weights, byte by byte, on a machine that stores the low byte of a number first.
pub mod Codec
pub mod RoundTrip
use gapbs_bfs_experiment.Base.{
  ℕ, zero, suc, ◌+◌, ◌*◌, ◌/◌, ◌%◌, Bool, true, false, not, ◌&&◌, Option, none, some, List, [], ◌∷◌,
  ◌++◌, length, take, drop, get_or, if◌then◌else◌, ◌==◌, negsuc, Text, codes, ◌≟◌, Exit, done,
  exits, ◌>>=◌,
}
use gapbs_bfs_experiment.Graph.{
  Graph, undirected_graph, directed_graph, num_edges_directed, vertex_offsets, gen_index,
}
use gapbs_bfs_experiment.Reader.{get_suffix}
use gapbs_bfs_experiment.Reader.Matrix.{fails}

abbrev pub Bytes : Type 0
Bytes = List ℕ

abbrev pub offset_bytes : ℕ
offset_bytes = 8

abbrev pub id_bytes : ℕ
id_bytes = 4

-- The `k` bytes of a number, and back.
unfoldable pub to_bytes : ℕ → ℕ → Bytes
to_bytes zero n = []
to_bytes (suc k) n = n % 256 ∷ to_bytes k (n / 256)

unfoldable pub from_bytes : Bytes → ℕ
from_bytes [] = 0
from_bytes (b ∷ bs) = b + 256 * from_bytes bs

-- An array of numbers of `k` bytes each.
unfoldable pub array_bytes : ℕ → List ℕ → Bytes
array_bytes k [] = []
array_bytes k (n ∷ ns) = to_bytes k n ++ array_bytes k ns

-- file.read of a number: a file that is too short leaves 0 in the bytes that are missing.
unfoldable pub read_number : ℕ → Bytes → ℕ × Bytes
read_number k bs = (from_bytes (take k bs), drop k bs)

unfoldable pub read_array : ℕ → ℕ → Bytes → List ℕ × Bytes
read_array k zero bs = ([], bs)
read_array k (suc count) bs =
    let (n, left) = read_number k bs in let (ns, left') = read_array k count left in (n ∷ ns, left')

-- What the template parameters are: whether NodeID_ is SGID, whether DestID_ is NodeID_, is a
-- NodeWeight of SGID, and whether WeightT_ is SGID.
pub record Types : Type 0 where
  pub node_is_sgid : Bool
  pub dest_is_node : Bool
  pub dest_is_weight : Bool
  pub weight_is_sgid : Bool

unfoldable pub check_writer : Types → Exit (Unit {0})
check_writer t =
    if not t.node_is_sgid
    then fails 3 (codes "serialized graphs only allowed for 32b IDs")
    else if not t.dest_is_node && not t.dest_is_weight
    then fails 7 (codes ".wsg only allowed for int32_t weights")
    else done tt

-- The offsets of one direction, and the neighbours from the first vertex's on.
unfoldable pub direction_bytes : Graph → Bool → List ℕ → List ℕ → Bytes
direction_bytes g in_graph index neighs =
    array_bytes offset_bytes (vertex_offsets g in_graph)
    ++ array_bytes id_bytes (take (num_edges_directed g) (drop (get_or index 0 0) neighs))

abbrev pub bool_byte : Bool → ℕ
bool_byte true = 1
bool_byte false = 0

unfoldable pub serialized : Graph → Bytes
serialized g =
    let incoming = direction_bytes g true g.in_index g.in_neighbors in
    bool_byte g.directed
    ∷ (to_bytes offset_bytes (num_edges_directed g)
        ++ (to_bytes offset_bytes g.num_nodes
            ++ (direction_bytes g false g.out_index g.out_neighbors
                ++ (if g.directed then incoming else []))))

unfoldable pub write_serialized_graph : Types → Graph → Exit Bytes
write_serialized_graph t g = check_writer t >>= λ u. done (serialized g)

unfoldable pub check_reader : Types → Bool → Exit (Unit {0})
check_reader t weighted =
    if not t.node_is_sgid
    then fails 4 (codes "serialized graphs only allowed for 32bit")
    else if not weighted && not t.dest_is_node
    then fails 4 (codes ".sg not allowed for weighted graphs")
    else if weighted && t.dest_is_node
    then fails 4 (codes ".wsg only allowed for weighted graphs")
    else if weighted && not t.weight_is_sgid
    then fails 4 (codes ".wsg only allowed for int32_t weights")
    else done tt

-- One direction: the index made of the offsets, and the neighbours.
unfoldable pub read_direction : ℕ → ℕ → Bytes → List ℕ × List ℕ × Bytes
read_direction num_nodes num_edges bs =
    let (offsets, left) = read_array offset_bytes (num_nodes + 1) bs in
    let (neighs, left') = read_array id_bytes num_edges left in (gen_index 0 offsets, neighs, left')

-- What stands before the arrays.
pub record Header : Type 0 where
  pub directed : Bool
  pub num_edges : ℕ
  pub num_nodes : ℕ

unfoldable pub read_header : Bytes → Header × Bytes
read_header bs =
    let (flag, b1) = read_number 1 bs in
    let (num_edges, b2) = read_number offset_bytes b1 in
    let (num_nodes, b3) = read_number offset_bytes b2 in
    (record { directed = not (flag == 0); num_edges = num_edges; num_nodes = num_nodes }, b3)

unfoldable pub read_arrays : Bool → Header → Bytes → Graph
read_arrays invert h bs =
    let (index, neighs, left) = read_direction h.num_nodes h.num_edges bs in
    let (inv_index, inv_neighs, left') = read_direction h.num_nodes h.num_edges left in
    if h.directed && invert
    then directed_graph h.num_nodes index neighs inv_index inv_neighs
    else if h.directed
    then directed_graph h.num_nodes index neighs [] []
    else undirected_graph h.num_nodes index neighs

unfoldable pub graph_of_bytes : Bool → Bytes → Graph
graph_of_bytes invert bs = let (h, left) = read_header bs in read_arrays invert h left

unfoldable pub graph_opened : Bool → Text → Option Bytes → Exit Graph
graph_opened invert filename none = fails 5 (codes "Couldn't open file " ++ filename)
graph_opened invert filename (some bs) = done (graph_of_bytes invert bs)

-- `open_file` gives the bytes of a file that can be opened.
unfoldable pub read_serialized_graph : (Text → Option Bytes) → Types → Bool → Text → Exit Graph
read_serialized_graph open_file t invert filename = get_suffix filename >>= λ suffix.
    check_reader t (suffix ≟ codes ".wsg") >>= λ u.
    graph_opened invert filename (open_file filename)
