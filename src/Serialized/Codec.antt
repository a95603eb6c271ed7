-- ===== src/Serialized/Codec.antt =====
-- A serialized graph reads back (src/writer.h, src/reader.h).
use gapbs_bfs_experiment.Base.{
  ℕ, zero, suc, ◌+◌, ◌-◌, ◌/◌, ◌^◌, ◌<◌, ◌≡◌, refl, sym, ap, ◌∙◌, arith, Bool, true, false, List,
  [], ◌∷◌, ◌++◌, length, take, get_or, append_assoc, take-all, take-prefix, drop-prefix, map, range,
  AllLt, entries_ext, get_or-map-range, length-map, length-range, not, ◌==◌, if◌then◌else◌,
  Bool-cases, inl, inr, append-nil,
}
use gapbs_bfs_experiment.Graph.{
  Graph, vertex_offsets, gen_index, num_edges_directed, directed_graph, undirected_graph,
}
use gapbs_bfs_experiment.Serialized.{
  Bytes, to_bytes, from_bytes, array_bytes, read_number, read_array, read_direction,
  direction_bytes, serialized, graph_of_bytes, Header, read_header, read_arrays, bool_byte,
  offset_bytes, id_bytes,
}

from_bytes-to_bytes : (k n : ℕ) → n < 256 ^ k → from_bytes (to_bytes k n) ≡ n
unfolding from_bytes to_bytes
from_bytes-to_bytes zero n h = omega arith
from_bytes-to_bytes (suc k) n h = omega (arith, from_bytes-to_bytes k (n / 256) (grind arith))

length-to_bytes : (k n : ℕ) → length (to_bytes k n) ≡ k
unfolding to_bytes
length-to_bytes zero n = refl
length-to_bytes (suc k) n = ap suc (length-to_bytes k (n / 256))

read_number-flag :
    (d : Bool) (rest : Bytes) → read_number 1 (bool_byte d ∷ rest) ≡ (bool_byte d, rest)
unfolding read_number from_bytes
read_number-flag true rest = refl
read_number-flag false rest = refl

flag_read : (d : Bool) → not (bool_byte d == 0) ≡ d
flag_read true = refl
flag_read false = refl

-- A number that its bytes hold, in front of any others.
read_number-to_bytes :
    (k n : ℕ) (rest : Bytes) → n < 256 ^ k → read_number k (to_bytes k n ++ rest) ≡ (n, rest)
unfolding read_number
read_number-to_bytes k n rest h =
    let len = length-to_bytes k n in
    rw (take-prefix k (to_bytes k n) rest len, drop-prefix k (to_bytes k n) rest len)
      (rw (from_bytes-to_bytes k n h) refl)

read_array-array_bytes :
    (k count : ℕ) (ns : List ℕ) (rest : Bytes)
    → length ns ≡ count
    → AllLt (256 ^ k) ns
    → read_array k count (array_bytes k ns ++ rest) ≡ (ns, rest)
unfolding read_array array_bytes
read_array-array_bytes k zero [] rest len h = refl
read_array-array_bytes k zero (n ∷ ns) rest len h = absurd (omega arith)
read_array-array_bytes k (suc count) [] rest len h = absurd (omega arith)
read_array-array_bytes k (suc count) (n ∷ ns) rest len h =
    rw (append_assoc (to_bytes k n) (array_bytes k ns) rest) (
      rw (read_number-to_bytes k n (array_bytes k ns ++ rest) h.0)
        (rw (read_array-array_bytes k count ns rest (omega arith) h.1) refl))

map-zero : (ns : List ℕ) → gen_index 0 ns ≡ ns
unfolding gen_index
map-zero [] = refl
map-zero (n ∷ ns) = rw (map-zero ns) (ap (λ m. m ∷ ns) (omega arith))

-- The arrays of one direction of a graph that a file can hold.
pub record IsStored (num_nodes count : ℕ) (index neighs : List ℕ) : Type 0 where
  pub entries : length index ≡ num_nodes + 1
  pub first : get_or index 0 0 ≡ 0
  pub last : get_or index num_nodes 0 ≡ count
  pub offsets_fit : AllLt (256 ^ offset_bytes) index
  pub all_neighs : length neighs ≡ count
  pub ids_fit : AllLt (256 ^ id_bytes) neighs

-- The offsets from the first entry are the entries.
relative :
    (index : List ℕ) (n : ℕ)
    → length index ≡ n + 1
    → get_or index 0 0 ≡ 0
    → map (λ i. get_or index i 0 - get_or index 0 0) (range 0 (n + 1)) ≡ index
relative index n len first =
    let offsets = map (λ i. get_or index i 0 - get_or index 0 0) (range 0 (n + 1)) in
    let size : length offsets ≡ n + 1 = length-map _ (range 0 (n + 1)) ∙ length-range 0 (n + 1) in
    entries_ext offsets index 0 (omega (arith, size)) λ i lt.
      get_or-map-range (λ i. get_or index i 0 - get_or index 0 0) 0 (n + 1) i 0
        (omega (arith, size))
      ∙ (let same : 0 + i ≡ i = omega arith in rw (same, first) (omega arith))

read_direction-stored :
    (n count : ℕ) (index neighs : List ℕ) (rest : Bytes)
    → IsStored n count index neighs
    → read_direction n count
        (array_bytes offset_bytes index ++ (array_bytes id_bytes neighs ++ rest))
      ≡ (index, neighs, rest)
unfolding read_direction
read_direction-stored n count index neighs rest s =
    rw
      (read_array-array_bytes offset_bytes (n + 1) index (array_bytes id_bytes neighs ++ rest)
        s.entries s.offsets_fit)
      (rw (read_array-array_bytes id_bytes count neighs rest s.all_neighs s.ids_fit)
        (rw (map-zero index) refl))

-- A graph that a file can hold: its numbers fit the fields, and an undirected graph has one pair of
-- arrays.
pub record IsSerializable (g : Graph) : Type 0 where
  pub nodes_fit : g.num_nodes < 256 ^ offset_bytes
  pub edges_fit : num_edges_directed g < 256 ^ offset_bytes
  pub out_stored : IsStored g.num_nodes (num_edges_directed g) g.out_index g.out_neighbors
  pub in_stored : IsStored g.num_nodes (num_edges_directed g) g.in_index g.in_neighbors
  pub one_pair :
      g.directed ≡ false → (g.in_index ≡ g.out_index) × (g.in_neighbors ≡ g.out_neighbors)

module _ (g : Graph) (s : IsSerializable g) where
  direction_bytes-stored :
      (in_graph : Bool) (index neighs : List ℕ)
      → IsStored g.num_nodes (num_edges_directed g) index neighs
      → vertex_offsets g in_graph ≡ index
      → direction_bytes g in_graph index neighs
        ≡ array_bytes offset_bytes index ++ array_bytes id_bytes neighs
  unfolding direction_bytes
  direction_bytes-stored in_graph index neighs d offsets =
      let all : take (num_edges_directed g) neighs ≡ neighs =
        ap (λ n. take n neighs) (sym d.all_neighs) ∙ take-all neighs in
      rw (offsets, d.first) (rw all refl)

  behind : Bytes
  behind = if g.directed then direction_bytes g true g.in_index g.in_neighbors else []

  body : Bytes
  body = direction_bytes g false g.out_index g.out_neighbors ++ behind

  header : Header
  header = record {
    directed = g.directed;
    num_edges = num_edges_directed g;
    num_nodes = g.num_nodes;
  }

  read_header-serialized : read_header (serialized g) ≡ (header, body)
  unfolding read_header serialized header body behind
  read_header-serialized =
      let counts = to_bytes offset_bytes g.num_nodes ++ body in
      rw (read_number-flag g.directed (to_bytes offset_bytes (num_edges_directed g) ++ counts)) (
        rw (read_number-to_bytes offset_bytes (num_edges_directed g) counts s.edges_fit) (
          rw (read_number-to_bytes offset_bytes g.num_nodes body s.nodes_fit)
            (rw (flag_read g.directed) refl)))

  offsets_of :
      (in_graph : Bool) → vertex_offsets g in_graph ≡ (if in_graph then g.in_index else g.out_index)
  unfolding vertex_offsets
  offsets_of true = relative g.in_index g.num_nodes s.in_stored.entries s.in_stored.first
  offsets_of false = relative g.out_index g.num_nodes s.out_stored.entries s.out_stored.first

  out_bytes :
      direction_bytes g false g.out_index g.out_neighbors
      ≡ array_bytes offset_bytes g.out_index ++ array_bytes id_bytes g.out_neighbors
  out_bytes =
      direction_bytes-stored false g.out_index g.out_neighbors s.out_stored (offsets_of false)

  in_bytes :
      direction_bytes g true g.in_index g.in_neighbors
      ≡ array_bytes offset_bytes g.in_index ++ array_bytes id_bytes g.in_neighbors
  in_bytes = direction_bytes-stored true g.in_index g.in_neighbors s.in_stored (offsets_of true)

  first_direction :
      read_direction g.num_nodes (num_edges_directed g) body
      ≡ (g.out_index, g.out_neighbors, behind)
  unfolding body
  first_direction =
      rw
        (
          out_bytes,
          append_assoc (array_bytes offset_bytes g.out_index) (array_bytes id_bytes g.out_neighbors)
              behind,
        )
        (read_direction-stored g.num_nodes (num_edges_directed g) g.out_index g.out_neighbors behind
          s.out_stored)

  second_direction :
      g.directed ≡ true
      → read_direction g.num_nodes (num_edges_directed g) behind ≡ (g.in_index, g.in_neighbors, [])
  unfolding behind
  second_direction two =
      let count = num_edges_directed g in
      let incoming = direction_bytes g true g.in_index g.in_neighbors in
      let all = read_direction-stored g.num_nodes count g.in_index g.in_neighbors [] s.in_stored in
      ap (λ d. read_direction g.num_nodes count (if d then incoming else [])) two
      ∙ rw in_bytes (rw append-nil at all)

  directed_again :
      g.directed ≡ true
      → directed_graph g.num_nodes g.out_index g.out_neighbors g.in_index g.in_neighbors ≡ g
  unfolding directed_graph num_edges_directed
  directed_again two =
      let count : get_or g.out_index g.num_nodes 0 - get_or g.out_index 0 0 ≡ g.num_edges =
        ground (arith, s.out_stored.last, s.out_stored.first) in
      rw count (ap (λ d. record g { directed = d }) (sym two))

  undirected_again :
      g.directed ≡ false → undirected_graph g.num_nodes g.out_index g.out_neighbors ≡ g
  unfolding undirected_graph num_edges_directed
  undirected_again one =
      let count : (get_or g.out_index g.num_nodes 0 - get_or g.out_index 0 0) / 2 ≡ g.num_edges =
        ground (arith, s.out_stored.last, s.out_stored.first) in
      let (index, neighs) = s.one_pair one in
      rw count (
        ap (λ d. record g { directed = d; in_index = g.out_index; in_neighbors = g.out_neighbors })
          (sym one)
        ∙ ap (λ i. record g { in_index = i; in_neighbors = g.out_neighbors }) (sym index)
        ∙ ap (λ n. record g { in_neighbors = n }) (sym neighs))

  read_arrays-body :
      (invert : Bool) → (g.directed ≡ true → invert ≡ true) → read_arrays invert header body ≡ g
  unfolding read_arrays header
  read_arrays-body invert wanted = elim (Bool-cases g.directed) [
    | inl two ↦
        rw first_direction (rw (second_direction two) (simp (two, wanted two) (directed_again two)))
    | inr one ↦ rw first_direction (simp one (undirected_again one))
  ]

  pub graph_of_bytes-serialized :
      (invert : Bool)
      → (g.directed ≡ true → invert ≡ true)
      → graph_of_bytes invert (serialized g) ≡ g
  unfolding graph_of_bytes
  graph_of_bytes-serialized invert wanted =
      rw read_header-serialized (read_arrays-body invert wanted)
