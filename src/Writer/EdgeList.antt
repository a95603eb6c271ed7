-- ===== src/Writer/EdgeList.antt =====
-- The edge list that WriteEL (src/writer.h) writes reads back by ReadInEL (src/reader.h).
use gapbs_bfs_experiment.Base.{
  ℕ, zero, suc, ◌^◌, ◌<◌, ◌≡◌, refl, sym, ap, ◌∙◌, arith, true, some, List, [], ◌∷◌, ◌++◌, map,
  append_assoc, append-nil, length, ℤ, pos, Text, skip_spaces, decimal, Bool-cases, inl, inr,
}
use gapbs_bfs_experiment.Graph.{Graph, out_neigh, vertices}
use gapbs_bfs_experiment.Reader.Streams.{Stream, open_stream, is_good, read_int}
use gapbs_bfs_experiment.Reader.Progress.{read_int-failed}
use gapbs_bfs_experiment.Reader.{Edges, read_in_el}
use gapbs_bfs_experiment.Writer.{write_lines, write_vertices, write_el}
use gapbs_bfs_experiment.Writer.Numbers.{left_at, read_int-decimal, skip_spaces-decimal}

abbrev pub Arcs : Type 0
Arcs = List (ℕ × ℕ)

abbrev arcs_from : ℕ → List ℕ → Arcs → Arcs
arcs_from u [] rest = rest
arcs_from u (v ∷ vs) rest = (u, v) ∷ arcs_from u vs rest

abbrev pub arcs_at : Graph → List ℕ → Arcs
arcs_at g [] = []
arcs_at g (u ∷ us) = arcs_from u (out_neigh g u 0) (arcs_at g us)

-- The edges of a graph, vertex by vertex.
abbrev pub graph_arcs : Graph → Arcs
graph_arcs g = arcs_at g (vertices g)

abbrev lines_of : Arcs → Text
lines_of [] = []
lines_of ((u, v) ∷ es) = decimal u ++ (b' ' ∷ (decimal v ++ (b'\n' ∷ lines_of es)))

abbrev pub AllIds : Arcs → Type 0
AllIds [] = Unit {0}
AllIds ((u, v) ∷ es) = (u < 2 ^ 31) × (v < 2 ^ 31) × AllIds es

write_lines-lines_of :
    (u : ℕ) (vs : List ℕ) (rest : Arcs)
    → write_lines u vs (lines_of rest) ≡ lines_of (arcs_from u vs rest)
unfolding write_lines
write_lines-lines_of u [] rest = refl
write_lines-lines_of u (v ∷ vs) rest = rw (write_lines-lines_of u vs rest) refl

write_vertices-lines_of : (g : Graph) (us : List ℕ) → write_vertices g us ≡ lines_of (arcs_at g us)
unfolding write_vertices
write_vertices-lines_of g [] = refl
write_vertices-lines_of g (u ∷ us) =
    ap (write_lines u (out_neigh g u 0)) (write_vertices-lines_of g us)
    ∙ write_lines-lines_of u (out_neigh g u 0) (arcs_at g us)

skip_spaces-lines_of : (es : Arcs) → skip_spaces (lines_of es) ≡ lines_of es
unfolding skip_spaces
skip_spaces-lines_of [] = refl
skip_spaces-lines_of ((u, v) ∷ es) = skip_spaces-decimal u _

-- A number is not read off an end of blanks.
read_int-blank :
    (old : ℤ) (s : Stream) → skip_spaces s.rest ≡ [] → (read_int 31 old s).1.failed ≡ true
unfolding read_int
read_int-blank old s blank = elim (Bool-cases (is_good s)) [
  | inl good ↦ rw (blank, good) refl
  | inr ended ↦ rw (blank, ended) refl
]

module _ {Dest : Type 0} (of_id : ℤ → Dest) (of_weighted : ℤ → ℤ → Dest) where
  abbrev pub edge_of : ℕ × ℕ → ℤ × Dest
  edge_of e = (pos e.0, of_id (pos e.1))

  read_in_el-lines_of :
      (es : Arcs) (fuel : ℕ) (s : Stream) (el : Edges Dest)
      → AllIds es
      → length es < fuel
      → is_good s ≡ true
      → skip_spaces s.rest ≡ lines_of es
      → read_in_el of_id of_weighted fuel s el ≡ some (el ++ map edge_of es)
  unfolding read_in_el
  read_in_el-lines_of es zero s el ids enough good text = absurd (omega arith)
  read_in_el-lines_of [] (suc fuel) s el ids enough good text =
      let first = read_int-blank (pos 0) s text in
      let second = read_int-failed 31 (pos 0) (read_int 31 (pos 0) s).1 first in
      rw second (ap some (sym (append-nil el)))
  read_in_el-lines_of ((u, v) ∷ es) (suc fuel) s el ids enough good text =
      let (u_fits, v_fits, others) = ids in
      let behind_v = b'\n' ∷ lines_of es in
      let behind_u = b' ' ∷ (decimal v ++ behind_v) in
      rw (read_int-decimal u b' ' (decimal v ++ behind_v) (pos 0) s good text u_fits refl) (
        rw
          (read_int-decimal v b'\n' (lines_of es) (pos 0) (left_at behind_u) refl
            (unfold skip_spaces in skip_spaces-decimal v behind_v) v_fits refl)
          (read_in_el-lines_of es fuel (left_at behind_v) (el ++ edge_of (u, v) ∷ []) others
              (omega arith) refl (unfold skip_spaces in skip_spaces-lines_of es)
            ∙ ap some (append_assoc el (edge_of (u, v) ∷ []) (map edge_of es))))

  -- ReadInEL ends on what WriteEL writes of a graph whose edges are between vertices below 2^31, given
  -- more rounds than there are edges, and gives the edges of the graph in their order.
  pub read_in_el-write_el :
      (g : Graph) (fuel : ℕ)
      → AllIds (graph_arcs g)
      → length (graph_arcs g) < fuel
      → read_in_el of_id of_weighted fuel (open_stream (write_el g)) []
        ≡ some (map edge_of (graph_arcs g))
  unfolding write_el open_stream
  read_in_el-write_el g fuel ids enough =
      let lines = write_vertices-lines_of g (vertices g) in
      read_in_el-lines_of (graph_arcs g) fuel (open_stream (write_el g)) [] ids enough refl
        (ap skip_spaces lines ∙ skip_spaces-lines_of (graph_arcs g))
