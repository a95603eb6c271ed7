-- ===== src/Tests/Files.antt =====
-- Files of src/reader.h and src/writer.h on small inputs.
use gapbs_bfs_experiment.Base.{
  ℕ, ◌≡◌, refl, arith, Bool, true, false, Option, none, some, [], ◌∷◌, map, ℤ, pos, negsuc, Text,
  codes, Exit, done, exits, skip_spaces, read_digits, decimal, digits_onto,
}
use gapbs_bfs_experiment.Graph.{Graph, num_edges_directed, out_neigh, vertices, neighborhood}
use gapbs_bfs_experiment.Reader.Streams.{
  Stream, open_stream, read_int, peek, ignore_line, ignore_text, read_char, read_word, word_of,
  skip_ws, getline, line_of,
}
use gapbs_bfs_experiment.Reader.Progress.{read_edges_end, read_in_gr_never_ends}
use gapbs_bfs_experiment.Reader.Matrix.{
  read_in_mtx, read_banner, check_banner, weights_of, symmetry_of, skip_comments, read_entries,
  check_square, mtx_lines, mtx_line,
}
use gapbs_bfs_experiment.Reader.Files.{read_file, read_opened, read_stream}
use gapbs_bfs_experiment.Reader.{
  Edges, unset, read_in_el, read_in_wel, read_in_gr, gr_line, read_arc, read_triple,
  read_node_weight, get_suffix, from_last_dot,
}
use gapbs_bfs_experiment.Serialized.{
  Types, serialized, write_serialized_graph, read_serialized_graph, check_writer,
}
use gapbs_bfs_experiment.Serialized.Codec.{IsSerializable}
use gapbs_bfs_experiment.Serialized.RoundTrip.{read_serialized_graph-write_serialized_graph}
use gapbs_bfs_experiment.Writer.EdgeList.{graph_arcs, read_in_el-write_el}
use gapbs_bfs_experiment.Writer.{write_el, write_vertices, write_lines}

-- NodeWeight(v) has the weight 1.
abbrev of_id : ℤ → ℤ × ℤ
of_id v = (v, pos 1)

abbrev of_weighted : ℤ → ℤ → ℤ × ℤ
of_weighted v w = (v, w)

reading : Unit {0}
unfolding read_in_el read_in_wel read_in_gr gr_line read_arc read_triple read_node_weight
    open_stream read_int peek ignore_line ignore_text read_char skip_spaces read_digits read_word
    word_of skip_ws getline line_of read_in_mtx read_banner check_banner weights_of symmetry_of
    skip_comments read_entries check_square mtx_lines mtx_line get_suffix from_last_dot read_file
    read_opened read_stream
reading = tt

-- The last line has no second number.
read_el :
    read_in_el of_id of_weighted 9 (open_stream (codes "0 1\n 2\t3\n4 x")) []
    ≡ some ((pos 0, of_id (pos 1)) ∷ (pos 2, of_id (pos 3)) ∷ [])
unfolding reading
read_el = refl

read_gr :
    read_in_gr of_id of_weighted 9 unset (open_stream (codes "c x\na 1 2 7\na 2 1 8\n")) []
    ≡ some ((pos 0, (pos 1, pos 7)) ∷ (pos 1, (pos 0, pos 8)) ∷ [])
unfolding reading
read_gr = refl

abbrev matrix : Text
matrix =
    codes "%%MatrixMarket matrix coordinate integer symmetric\n% a comment\n3 3 2\n2 1 5\n3 1 6\n"

read_mtx :
    read_in_mtx of_id of_weighted 9 (open_stream matrix)
    ≡ done (
        some (
          false,
          (pos 1, (pos 0, pos 5))
              ∷ (pos 0, (pos 1, pos 5))
              ∷ (pos 2, (pos 0, pos 6))
              ∷ (pos 0, (pos 2, pos 6))
              ∷ [],
        ))
unfolding reading
read_mtx = refl

abbrev no_metis : ℕ → Stream → Exit (Option (Bool × Edges (ℤ × ℤ)))
no_metis fuel s = done none

abbrev disk : Text → Option Text
disk name = some (codes "0 1\n")

read_files :
    (read_file of_id of_weighted no_metis disk 9 true (codes "a.el")
      ≡ done (some (true, (pos 0, of_id (pos 1)) ∷ [])))
    × (read_file of_id of_weighted no_metis (λ name. none) 9 true (codes "a.el")
        ≡ exits (negsuc 1) (codes "Couldn't open file a.el" ∷ []))
    × (read_file of_id of_weighted no_metis disk 9 true (codes "a.txt")
        ≡ exits (negsuc 2) (codes "Unrecognized suffix: .txt" ∷ []))
    × (read_file of_id of_weighted no_metis disk 9 true (codes "graph")
        ≡ exits (negsuc 0) (codes "Couldn't find suffix of graph" ∷ []))
unfolding reading
read_files = (refl, refl, refl, refl)

-- The stream behind the line "a x", which has failed and not ended.
abbrev behind_bad_line : Stream
behind_bad_line = record { rest = codes "x\n"; failed = true; at_end = false }

gr_bad_line : (gr_line of_id of_weighted unset (open_stream (codes "a x\n")) []).1 ≡ behind_bad_line
unfolding reading
gr_bad_line = refl

-- Where the text ends behind the 'a', the stream has met its end and the loop ends.
gr_cut_line :
    (es : Edges (ℤ × ℤ)) × (read_in_gr of_id of_weighted 2 unset (open_stream (codes "a\n")) []
      ≡ some es)
unfolding reading
gr_cut_line = (_, refl)

abbrev at_bad_line : Stream
at_bad_line = record { rest = codes "a x\n"; failed = false; at_end = false }

read_in_gr_never_ends_example : read_in_gr of_id of_weighted 1000 unset at_bad_line [] ≡ none
unfolding skip_spaces
read_in_gr_never_ends_example =
    read_in_gr_never_ends of_id of_weighted unset [] (codes " x\n") (codes "\n") b'x' refl refl refl
      1000

read_edges_end_example :
    ((es : Edges (ℤ × ℤ)) × (read_in_el of_id of_weighted 9 behind_bad_line [] ≡ some es))
    × ((es : Edges (ℤ × ℤ)) × (read_in_wel of_id of_weighted 9 behind_bad_line [] ≡ some es))
read_edges_end_example = read_edges_end of_id of_weighted 9 behind_bad_line (omega arith)

-- 0 → 1, and 1 → 0 and 2.
abbrev little : Graph
little = record {
  directed = true;
  num_nodes = 3;
  num_edges = 3;
  out_index = 0 ∷ 1 ∷ 3 ∷ 3 ∷ [];
  out_neighbors = 1 ∷ 0 ∷ 2 ∷ [];
  in_index = 0 ∷ 1 ∷ 2 ∷ 3 ∷ [];
  in_neighbors = 1 ∷ 0 ∷ 1 ∷ [];
}

little_text : write_el little ≡ codes "0 1\n1 0\n1 2\n"
unfolding write_el write_vertices write_lines out_neigh neighborhood vertices decimal digits_onto
little_text = refl

read_in_el-write_el_example :
    read_in_el of_id of_weighted 4 (open_stream (write_el little)) []
    ≡ some (map (λ e. (pos e.0, of_id (pos e.1))) (graph_arcs little))
unfolding out_neigh neighborhood vertices
read_in_el-write_el_example =
    read_in_el-write_el of_id of_weighted little 4 (ground arith) (omega arith)

little-IsSerializable : IsSerializable little
unfolding num_edges_directed
little-IsSerializable = record {
  nodes_fit = omega arith;
  edges_fit = omega arith;
  out_stored = record {
    entries = refl;
    first = refl;
    last = refl;
    offsets_fit = ground arith;
    all_neighs = refl;
    ids_fit = ground arith;
  };
  in_stored = record {
    entries = refl;
    first = refl;
    last = refl;
    offsets_fit = ground arith;
    all_neighs = refl;
    ids_fit = ground arith;
  };
  one_pair = λ e. cc;
}

abbrev plain : Types
plain = record {
  node_is_sgid = true;
  dest_is_node = true;
  dest_is_weight = false;
  weight_is_sgid = true;
}

read_serialized_graph-write_serialized_graph_example :
    read_serialized_graph (λ name. some (serialized little)) plain true (codes "little.sg")
    ≡ done little
unfolding write_serialized_graph check_writer get_suffix from_last_dot
read_serialized_graph-write_serialized_graph_example =
    read_serialized_graph-write_serialized_graph plain little (serialized little)
      (λ name. some (serialized little)) true (codes "little.sg") little-IsSerializable refl refl
      refl refl (λ e. refl)
