-- ===== src/Serialized/RoundTrip.antt =====
-- A graph that WriteSerializedGraph (src/writer.h) writes is the one that ReadSerializedGraph
-- (src/reader.h) reads.
use gapbs_bfs_experiment.Base.{
  ◌≡◌, refl, ap, Bool, true, false, Option, some, codes, Text, done, Bool-cases, inl, inr,
}
use gapbs_bfs_experiment.Graph.{Graph}
use gapbs_bfs_experiment.Reader.{get_suffix}
use gapbs_bfs_experiment.Serialized.{
  Bytes, Types, serialized, check_writer, check_reader, write_serialized_graph,
  read_serialized_graph, graph_opened,
}
use gapbs_bfs_experiment.Serialized.Codec.{IsSerializable, graph_of_bytes-serialized}

module _ (t : Types) (g : Graph) (bs : Bytes) where
  -- What is written, if the types of the writer allow it.
  written_is :
      t.dest_is_node ≡ true
      → write_serialized_graph t g ≡ done bs
      → (t.node_is_sgid ≡ true) × (serialized g ≡ bs)
  unfolding write_serialized_graph check_writer
  written_is same written = elim (Bool-cases t.node_is_sgid) [ inl ids ↦ (ids, cc) | inr wide ↦ cc ]

  check_reader-plain :
      t.node_is_sgid ≡ true → t.dest_is_node ≡ true → check_reader t false ≡ done tt
  unfolding check_reader
  check_reader-plain ids same = rw (ids, same) refl

  -- A graph without weights that the fields of the file can hold, written and read back under a name
  -- that ends in .sg, is the same graph, if the reader keeps the incoming edges of a directed graph.
  pub read_serialized_graph-write_serialized_graph :
      (open_file : Text → Option Bytes) (invert : Bool) (filename : Text)
      → IsSerializable g
      → t.dest_is_node ≡ true
      → write_serialized_graph t g ≡ done bs
      → open_file filename ≡ some bs
      → get_suffix filename ≡ done (codes ".sg")
      → (g.directed ≡ true → invert ≡ true)
      → read_serialized_graph open_file t invert filename ≡ done g
  unfolding read_serialized_graph graph_opened
  read_serialized_graph-write_serialized_graph open_file invert filename s same written opened
        suffix wanted =
      let (ids, bytes) = written_is same written in
      rw suffix (
        rw (check_reader-plain ids same)
          (rw opened (rw (← bytes) (ap done (graph_of_bytes-serialized g s invert wanted)))))
