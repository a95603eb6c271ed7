-- ===== src/Reader/Matrix.antt =====
-- ReadInMTX of src/reader.h: MatrixMarket files.
use gapbs_bfs_experiment.Base.{
  ℕ, zero, suc, Bool, true, false, not, ◌||◌, Option, none, some, [], ◌∷◌, ◌++◌, if◌then◌else◌, ℤ,
  pos, negsuc, eq_ℤ, Text, codes, ◌≟◌, Exit, done, exits, ◌>>=◌,
}
use gapbs_bfs_experiment.Reader.Streams.{
  Stream, open_stream, peek, ignore_line, skip_ws, getline, read_word, read_int,
}
use gapbs_bfs_experiment.Reader.{from_one, read_id, Edges, unset, read_node_weight, is_char}

-- std::exit with a message.
abbrev pub fails {ℓ} : {A : Type ℓ} → ℕ → Text → Exit A
fails n message = exits (negsuc n) (message ∷ [])

-- What the first line says: whether there are weights, and whether each entry stands for two edges.
pub record Banner : Type 0 where
  pub read_weights : Bool
  pub undirected : Bool

unfoldable pub weights_of : Text → Exit Bool
weights_of field =
    if field ≟ codes "complex"
    then fails 22 (codes "do not support complex weights for .mtx")
    else if field ≟ codes "pattern"
    then done false
    else if field ≟ codes "real" || field ≟ codes "double" || field ≟ codes "integer"
    then done true
    else fails 23 (codes "unrecognized field type for .mtx")

unfoldable pub symmetry_of : Text → Exit Bool
symmetry_of symmetry =
    if symmetry ≟ codes "symmetric"
    then done true
    else if symmetry ≟ codes "general" || symmetry ≟ codes "skew-symmetric"
    then done false
    else fails 24 (codes "unsupported symmetry type for .mtx")

unfoldable pub check_banner : Text → Text → Text → Text → Text → Exit Banner
unfolding weights_of symmetry_of
check_banner start object format field symmetry =
    let checked = weights_of field >>= λ read_weights. symmetry_of symmetry >>= λ undirected.
    done (record { read_weights = read_weights; undirected = undirected }) in
    if not (start ≟ codes "%%MatrixMarket")
    then fails 20 (codes ".mtx file did not start with %%MatrixMarket")
    else if not (object ≟ codes "matrix") || not (format ≟ codes "coordinate")
    then fails 21 (codes "only allow matrix coordinate format for .mtx")
    else checked

unfoldable pub read_banner : Stream → Exit (Banner × Stream)
unfolding read_word skip_ws check_banner
read_banner s =
    let (start, s1) = read_word s in
    let (object, s2) = read_word s1 in
    let (format, s3) = read_word s2 in
    let (field, s4) = read_word s3 in
    let (symmetry, s5) = read_word s4 in
    check_banner start object format field symmetry >>= λ banner. done (banner, skip_ws s5)

-- The loop over the lines of comments.
unfoldable pub skip_comments : ℕ → Stream → Option Stream
unfolding peek ignore_line
skip_comments zero s = none
skip_comments (suc fuel) s =
    let (c, s1) = peek s in
    let rest = skip_comments fuel (ignore_line 200 s1) in if is_char b'%' c then rest else some s1

module _ {Dest : Type 0} (of_id : ℤ → Dest) (of_weighted : ℤ → ℤ → Dest) where
  -- The edges of one line.
  unfoldable pub mtx_line : Banner → Text → Edges Dest
  unfolding read_int read_node_weight
  mtx_line banner line =
      let (u, s1) = read_id (pos 0) (open_stream line) in
      let weighted = (read_node_weight unset s1).0 in
      let (v, s2) = read_id (pos 0) s1 in
      let from = from_one u in
      let weighted_to = from_one weighted.v in
      let to = from_one v in
      if banner.read_weights
      then (from, of_weighted weighted_to weighted.w)
        ∷ (if banner.undirected then (weighted_to, of_weighted from weighted.w) ∷ [] else [])
      else (from, of_id to) ∷ (if banner.undirected then (to, of_id from) ∷ [] else [])

  -- while (std::getline(in, line))
  unfoldable pub mtx_lines : ℕ → Banner → Stream → Edges Dest → Option (Edges Dest)
  unfolding getline mtx_line
  mtx_lines zero banner s el = none
  mtx_lines (suc fuel) banner s el =
      let (line, s1) = getline s in
      let more = if line ≟ [] then [] else mtx_line banner line in
      let rest = mtx_lines fuel banner s1 (el ++ more) in if s1.failed then some el else rest

  unfoldable pub check_square : ℤ → ℤ → ℕ → Banner → Stream → Exit (Option (Bool × Edges Dest))
  unfolding mtx_lines
  check_square m n fuel banner s =
      if eq_ℤ m n
      then done (with_weights (mtx_lines fuel banner s []))
      else fails 25 (codes "matrix must be square for .mtx")
    where
      with_weights : Option (Edges Dest) → Option (Bool × Edges Dest)
      with_weights none = none
      with_weights (some el) = some (not banner.read_weights, el)

  -- The result holds needs_weights.
  unfoldable pub read_entries : ℕ → Banner → Option Stream → Exit (Option (Bool × Edges Dest))
  unfolding read_int skip_ws check_square
  read_entries fuel banner none = done none
  read_entries fuel banner (some s) =
      let (m, s1) = read_int 63 (pos 0) s in
      let (n, s2) = read_int 63 (pos 0) s1 in
      let (nonzeros, s3) = read_int 63 (pos 0) s2 in check_square m n fuel banner (skip_ws s3)

  unfoldable pub read_in_mtx : ℕ → Stream → Exit (Option (Bool × Edges Dest))
  unfolding read_banner skip_comments read_entries
  read_in_mtx fuel s =
      read_banner s >>= λ (banner, s1). read_entries fuel banner (skip_comments fuel s1)
