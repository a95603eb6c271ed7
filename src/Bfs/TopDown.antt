-- ===== src/Bfs/TopDown.antt =====
-- The top-down step of src/bfs.cc (TDStep), one thread's order.
pub mod Scan
use gapbs_bfs_experiment.Base.{
  ℕ, zero, suc, ◌+◌, Bool, true, false, List, [], ◌∷◌, foldl, ℤ, pos, is_neg, neg, ◌+ℤ◌,
  if◌then◌else◌,
}
use gapbs_bfs_experiment.SlidingQueue
use gapbs_bfs_experiment.SlidingQueue.{SlidingQueue, QueueBuffer}
use gapbs_bfs_experiment.Graph.{Graph, out_neigh}
use gapbs_bfs_experiment.Bfs.Parent.{parent_at, compare_and_swap}

pub record Scout : Type 0 where
  pub parent : List ℤ
  pub queue : SlidingQueue ℕ
  pub lqueue : QueueBuffer ℕ
  pub scout_count : ℤ

-- The branch behind a successful compare_and_swap.
unfoldable pub claim : ℕ → ℤ → Scout → Scout
claim v curr_val s =
    let (queue, lqueue) = SlidingQueue.buffer_push s.queue s.lqueue v in
    record s { queue = queue; lqueue = lqueue; scout_count = s.scout_count +ℤ neg curr_val }

-- The body of the loop over out_neigh(u).
unfoldable pub td_visit : ℕ → Scout → ℕ → Scout
unfolding claim
td_visit u s v =
    let curr_val = parent_at s.parent v in
    let (won, parent) = compare_and_swap s.parent v curr_val (pos u) in
    let s' = record s { parent = parent } in
    if is_neg curr_val then (if won then claim v curr_val s' else s') else s

unfoldable pub td_expand : Graph → Scout → ℕ → Scout
unfolding td_visit
td_expand g s u = foldl (td_visit u) s (out_neigh g u 0)

-- `local_size` is the size of the buffer, 16384 in the source. The result is the parent array, the
-- queue with the new vertices behind the window, and the scout count.
unfoldable pub td_step : Graph → ℕ → List ℤ → SlidingQueue ℕ → List ℤ × SlidingQueue ℕ × ℤ
unfolding td_expand
td_step g local_size parent queue =
    let s =
      foldl (td_expand g)
        (record {
          parent = parent;
          queue = queue;
          lqueue = SlidingQueue.create_buffer 0 local_size;
          scout_count = pos 0;
        })
        (SlidingQueue.window queue) in
    (s.parent, (SlidingQueue.flush s.queue s.lqueue).0, s.scout_count)
