-- ===== src/Bfs/BottomUp.antt =====
-- The bottom-up step of src/bfs.cc (BUStep), one thread's order.
pub mod Scan
use gapbs_bfs_experiment.Base.{
  ℕ, zero, suc, ◌+◌, Bool, true, false, Option, none, some, List, [], ◌∷◌, foldl, set, range, ℤ,
  pos, is_neg, if◌then◌else◌,
}
use gapbs_bfs_experiment.Bitmap
use gapbs_bfs_experiment.Bitmap.{Bitmap}
use gapbs_bfs_experiment.Graph.{Graph, in_neigh}
use gapbs_bfs_experiment.Bfs.Parent.{parent_at}

pub record Sweep : Type 0 where
  pub parent : List ℤ
  pub next : Bitmap
  pub awake_count : ℕ

-- The loop over in_neigh(u) up to its `break`: the first neighbour on the frontier.
unfoldable pub find_parent : Bitmap → List ℕ → Option ℕ
find_parent front [] = none
find_parent front (v ∷ vs) = if Bitmap.get_bit front v then some v else find_parent front vs

unfoldable pub adopt : ℕ → Option ℕ → Sweep → Sweep
adopt u none s = s
adopt u (some v) s = record {
  parent = set s.parent u (pos v);
  next = Bitmap.set_bit s.next u;
  awake_count = s.awake_count + 1;
}

-- The body of the loop over the vertices.
unfoldable pub bu_visit : Graph → Bitmap → Sweep → ℕ → Sweep
unfolding find_parent adopt
bu_visit g front s u =
    if is_neg (parent_at s.parent u) then adopt u (find_parent front (in_neigh g u 0)) s else s

unfoldable pub bu_step : Graph → List ℤ → Bitmap → Bitmap → Sweep
unfolding bu_visit
bu_step g parent front next =
    foldl (bu_visit g front) (record { parent = parent; next = Bitmap.reset next; awake_count = 0 })
      (range 0 g.num_nodes)
