-- ===== src/Reader.antt =====
-- The class Reader of src/reader.h for 32-bit vertices and weights: edge lists from text.
pub mod Streams
pub mod Progress
pub mod Matrix
pub mod Files
use gapbs_bfs_experiment.Base.{
  ℕ, zero, suc, Bool, true, false, not, ◌&&◌, ◌||◌, Option, none, some, List, [], ◌∷◌, ◌++◌,
  if◌then◌else◌, ◌==◌, ℤ, pos, negsuc, ◌-ℤ◌, ltb_ℤ, eq_ℤ, Text, codes, ◌≟◌, Exit, done, exits,
  ◌>>=◌,
}
use gapbs_bfs_experiment.Reader.Streams.{
  Stream, open_stream, peek, ignore_line, skip_ws, getline, read_word, read_char, read_int, is_good,
}

-- A vertex of the file, counted from 1, counted from 0.
abbrev pub from_one : ℤ → ℤ
from_one v = v -ℤ pos 1

abbrev pub read_id : ℤ → Stream → ℤ × Stream
read_id old s = read_int 31 old s

-- EdgePair, with `Dest` for DestID_.
abbrev pub Edges : Type 0 → Type 0
Edges Dest = List (ℤ × Dest)

-- The three variables u, v.v and v.w.
pub record Numbers : Type 0 where
  pub u : ℤ
  pub v : ℤ
  pub w : ℤ

-- What is in variables that are not set.
abbrev pub unset : Numbers
unset = record { u = pos 0; v = pos 0; w = pos 0 }

-- in >> v for a NodeWeight
unfoldable pub read_node_weight : Numbers → Stream → Numbers × Stream
unfolding read_int
read_node_weight old s =
    let (v, s1) = read_id old.v s in
    let (w, s2) = read_int 31 old.w s1 in (record old { v = v; w = w }, s2)

-- in >> u >> v for a NodeWeight
unfoldable pub read_triple : Numbers → Stream → Numbers × Stream
unfolding read_node_weight read_int
read_triple old s = let (u, s1) = read_id old.u s in read_node_weight (record old { u = u }) s1

abbrev pub is_char : ℕ → Option ℕ → Bool
is_char c none = false
is_char c (some d) = d == c

-- The suffix from the last '.' on.
unfoldable pub from_last_dot : Text → Option Text
from_last_dot [] = none
from_last_dot (c ∷ cs) = or_here (from_last_dot cs)
  where
    or_here : Option Text → Option Text
    or_here none = if c == b'.' then some (c ∷ cs) else none
    or_here (some later) = some later

unfoldable pub get_suffix : Text → Exit Text
unfolding from_last_dot
get_suffix filename = found (from_last_dot filename)
  where
    found : Option Text → Exit Text
    found none = exits (negsuc 0) ((codes "Couldn't find suffix of " ++ filename) ∷ [])
    found (some suffix) = done suffix

-- `of_id v` and `of_weighted v w` are the destinations made of a NodeID_ and of a NodeWeight. The
-- loops run on `fuel`, and their result is none if it does not last; `el` is the list so far.
module _ {Dest : Type 0} (of_id : ℤ → Dest) (of_weighted : ℤ → ℤ → Dest) where
  -- while (in >> u >> v)
  unfoldable pub read_in_el : ℕ → Stream → Edges Dest → Option (Edges Dest)
  unfolding read_int
  read_in_el zero s el = none
  read_in_el (suc fuel) s el =
      let (u, s1) = read_id (pos 0) s in
      let (v, s2) = read_id (pos 0) s1 in
      let rest = read_in_el fuel s2 (el ++ (u, of_id v) ∷ []) in if s2.failed then some el else rest

  unfoldable pub read_in_wel : ℕ → Stream → Edges Dest → Option (Edges Dest)
  unfolding read_triple
  read_in_wel zero s el = none
  read_in_wel (suc fuel) s el =
      let (e, s1) = read_triple unset s in
      let rest = read_in_wel fuel s1 (el ++ (e.u, of_weighted e.v e.w) ∷ []) in
      if s1.failed then some el else rest

  -- A line that starts with 'a', with the numbers of the line before where it has none.
  unfoldable pub read_arc : Numbers → Stream → Edges Dest → Numbers × Stream × Edges Dest
  unfolding read_char read_triple
  read_arc old s el =
      let (e, s1) = read_triple old (read_char s) in
      (e, s1, el ++ (from_one e.u, of_weighted (from_one e.v) e.w) ∷ [])

  unfoldable pub gr_line : Numbers → Stream → Edges Dest → Numbers × Stream × Edges Dest
  unfolding peek ignore_line read_arc
  gr_line old s el =
      let (c, s1) = peek s in
      if is_char b'a' c then read_arc old s1 el else (old, ignore_line 200 s1, el)

  unfoldable pub read_in_gr : ℕ → Numbers → Stream → Edges Dest → Option (Edges Dest)
  unfolding gr_line
  read_in_gr zero old s el = none
  read_in_gr (suc fuel) old s el =
      let (old', s', el') = gr_line old s el in
      let rest = read_in_gr fuel old' s' el' in if s.at_end then some el else rest
