-- ===== src/Triangles.antt =====
-- Triangle counting: OrderedCount of src/tc.cc, in the serial order of its parallel loop.
pub mod Scan
pub mod Counted
pub mod Simple
use gapbs_bfs_experiment.Base.{
  and_then, ℕ, suc, ◌+◌, Bool, false, Option, none, some, List, [], ◌∷◌, ltb, ◌==◌, if◌then◌else◌,
}
use gapbs_bfs_experiment.Graph.{Graph, out_neigh, vertices}

-- while (*it < w) it++, from what the iterator has left: none if it leaves the neighbourhood.
unfoldable pub scan_to : ℕ → List ℕ → Option (List ℕ)
scan_to w [] = none
scan_to w (x ∷ it) = let rest = scan_to w it in if ltb x w then rest else some (x ∷ it)

-- *it of an iterator that a scan has left in the neighbourhood.
abbrev pub is_at : ℕ → List ℕ → Bool
is_at w [] = false
is_at w (x ∷ it) = w == x

-- The loop over w, on the neighbours of u, with the iterator in those of v.
unfoldable pub count_with : ℕ → List ℕ → List ℕ → ℕ → Option ℕ
count_with v [] it total = some total
count_with v (w ∷ ws) it total =
    let next =
      and_then (scan_to w it)
        (λ it'. count_with v ws it' (if is_at w it' then suc total else total)) in
    if ltb v w then some total else next

-- The loop over v.
unfoldable pub count_edges : Graph → ℕ → List ℕ → ℕ → Option ℕ
count_edges g u [] total = some total
count_edges g u (v ∷ vs) total =
    let next =
      and_then (count_with v (out_neigh g u 0) (out_neigh g v 0) total)
        (λ total'. count_edges g u vs total') in
    if ltb u v then some total else next

-- The loop over u.
unfoldable pub count_vertices : Graph → List ℕ → ℕ → Option ℕ
count_vertices g [] total = some total
count_vertices g (u ∷ us) total =
    and_then (count_edges g u (out_neigh g u 0) total) (λ total'. count_vertices g us total')

unfoldable pub ordered_count : Graph → Option ℕ
ordered_count g = count_vertices g (vertices g) 0
