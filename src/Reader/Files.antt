-- ===== src/Reader/Files.antt =====
-- ReadFile of src/reader.h: the reader for the suffix of the file's name.
use gapbs_bfs_experiment.Base.{
  ℕ, Bool, false, Option, none, some, [], ◌++◌, if◌then◌else◌, ℤ, Text, codes, ◌≟◌, Exit, done,
  ◌>>=◌,
}
use gapbs_bfs_experiment.Reader.Streams.{Stream, open_stream}
use gapbs_bfs_experiment.Reader.Matrix.{read_in_mtx, fails}
use gapbs_bfs_experiment.Reader.{Edges, unset, get_suffix, read_in_el, read_in_wel, read_in_gr}

-- `open_file` gives the text of a file that can be opened, and `read_in_metis` stands for
-- ReadInMetis.
module _ {Dest : Type 0} (of_id : ℤ → Dest) (of_weighted : ℤ → ℤ → Dest)
    (read_in_metis : ℕ → Stream → Exit (Option (Bool × Edges Dest))) where
  abbrev pub with_flag : Bool → Option (Edges Dest) → Option (Bool × Edges Dest)
  with_flag needs_weights none = none
  with_flag needs_weights (some el) = some (needs_weights, el)

  -- The result holds needs_weights, which the caller gives first.
  unfoldable pub read_stream : ℕ → Bool → Text → Stream → Exit (Option (Bool × Edges Dest))
  unfolding read_in_el read_in_wel read_in_gr read_in_mtx
  read_stream fuel needs_weights suffix file =
      if suffix ≟ codes ".el"
      then done (with_flag needs_weights (read_in_el of_id of_weighted fuel file []))
      else if suffix ≟ codes ".wel"
      then done (with_flag false (read_in_wel of_id of_weighted fuel file []))
      else if suffix ≟ codes ".gr"
      then done (with_flag false (read_in_gr of_id of_weighted fuel unset file []))
      else if suffix ≟ codes ".graph"
      then read_in_metis fuel file
      else if suffix ≟ codes ".mtx"
      then read_in_mtx of_id of_weighted fuel file
      else fails 2 (codes "Unrecognized suffix: " ++ suffix)

  unfoldable pub read_opened :
      ℕ → Bool → Text → Text → Option Text → Exit (Option (Bool × Edges Dest))
  unfolding read_stream
  read_opened fuel needs_weights filename suffix none =
      fails 1 (codes "Couldn't open file " ++ filename)
  read_opened fuel needs_weights filename suffix (some text) =
      read_stream fuel needs_weights suffix (open_stream text)

  unfoldable pub read_file :
      (Text → Option Text) → ℕ → Bool → Text → Exit (Option (Bool × Edges Dest))
  unfolding get_suffix read_opened
  read_file open_file fuel needs_weights filename = get_suffix filename >>= λ suffix.
      read_opened fuel needs_weights filename suffix (open_file filename)
