-- ===== src/Bfs/Search.antt =====
-- The search itself: DOBFS of src/bfs.cc.
pub mod Count
pub mod Phases
pub mod Rounds
pub mod Correct
use gapbs_bfs_experiment.Base.{
  ℕ, zero, suc, ◌+◌, Bool, true, false, ◌&&◌, ◌||◌, Option, none, some, List, [], ◌∷◌, set, ℤ, pos,
  ◌-ℤ◌, ltb_ℤ, eq_ℤ, quot, leb, if◌then◌else◌,
}
use gapbs_bfs_experiment.Bitmap
use gapbs_bfs_experiment.Bitmap.{Bitmap}
use gapbs_bfs_experiment.SlidingQueue
use gapbs_bfs_experiment.SlidingQueue.{SlidingQueue}
use gapbs_bfs_experiment.Graph.{Graph, out_degree, num_edges_directed}
use gapbs_bfs_experiment.Bfs.Parent.{init_parent, cleanup}
use gapbs_bfs_experiment.Bfs.BottomUp.{bu_step}
use gapbs_bfs_experiment.Bfs.TopDown.{td_step}
use gapbs_bfs_experiment.Bfs.Convert.{queue_to_bitmap, bitmap_to_queue}

-- The parameters of the heuristic, of which alpha and beta are divided by, and the size of the thread-local buffers (16384 in the source).
pub record Tuning : Type 0 where
  pub alpha : ℤ
  pub beta : ℤ
  pub max_bu_iters : ℤ
  pub local_size : ℕ

pub record Search : Type 0 where
  pub parent : List ℤ
  pub queue : SlidingQueue ℕ
  pub front : Bitmap
  pub curr : Bitmap
  pub edges_to_check : ℤ
  pub scout_count : ℤ

-- What the do-while loop works on.
pub record Phase : Type 0 where
  pub parent : List ℤ
  pub front : Bitmap
  pub curr : Bitmap

module _ (g : Graph) (o : Tuning) where
  -- The test at the end of the do-while loop.
  unfoldable pub again : ℕ → ℕ → ℕ → Bool
  again bu_iters awake_count old_awake_count =
      (eq_ℤ o.max_bu_iters (pos 0) || ltb_ℤ (pos bu_iters) o.max_bu_iters)
      && (leb old_awake_count awake_count
          || ltb_ℤ (quot (pos g.num_nodes) o.beta) (pos awake_count))

  -- The do-while loop, on fuel; `none` means that the fuel ran out.
  unfoldable pub bu_phase : ℕ → ℕ → ℕ → Phase → Option Phase
  bu_phase zero bu_iters old_awake_count p = none
  bu_phase (suc fuel) bu_iters old_awake_count p =
      let s = bu_step g p.parent p.front p.curr in
      let p' : Phase = record { parent = s.parent; front = s.next; curr = p.front } in
      let rest = bu_phase fuel (bu_iters + 1) s.awake_count p' in
      if again (bu_iters + 1) s.awake_count old_awake_count then rest else some p'

  -- The branch that goes bottom-up: what it hands to the do-while loop, and what follows the loop.
  unfoldable pub enter_phase : Search → Phase
  enter_phase s = record {
    parent = s.parent;
    front = queue_to_bitmap s.queue s.front;
    curr = s.curr;
  }

  unfoldable pub leave_phase : Search → Phase → Search
  leave_phase s p =
      let queue = SlidingQueue.slide_window s.queue in
      record s {
        parent = p.parent;
        queue = bitmap_to_queue g o.local_size p.front queue;
        front = p.front;
        curr = p.curr;
        scout_count = pos 1;
      }

  unfoldable pub bottom_up : Search → Option Search
  unfolding bu_phase again enter_phase leave_phase
  bottom_up s = elim (bu_phase (suc g.num_nodes) 0 (SlidingQueue.size s.queue) (enter_phase s)) [
    | none ↦ none
    | some p ↦ some (leave_phase s p)
  ]

  -- The branch that goes top-down.
  unfoldable pub top_down : Search → Search
  top_down s =
      let (parent, queue, scout_count) = td_step g o.local_size s.parent s.queue in
      record s {
        parent = parent;
        queue = SlidingQueue.slide_window queue;
        edges_to_check = s.edges_to_check -ℤ s.scout_count;
        scout_count = scout_count;
      }

  -- The body of the while loop.
  unfoldable pub search_round : Search → Option Search
  unfolding bottom_up top_down
  search_round s =
      if ltb_ℤ (quot s.edges_to_check o.alpha) s.scout_count then bottom_up s else some (top_down s)

  -- The while loop, on fuel.
  unfoldable pub search_loop : ℕ → Search → Option Search
  unfolding search_round
  search_loop zero s = none
  search_loop (suc fuel) s =
      let next : Option Search = elim (search_round s) [
        | none ↦ none
        | some s' ↦ search_loop fuel s'
      ] in
      if SlidingQueue.empty s.queue then some s else next

  -- The state before the loop. The arrays start with unknown contents, here zeros.
  unfoldable pub start : ℕ → Search
  start source = record {
    parent = set (init_parent g) source (pos source);
    queue =
        SlidingQueue.slide_window
          (SlidingQueue.push_back (SlidingQueue.create 0 g.num_nodes) source);
    front = Bitmap.reset (Bitmap.alloc 0 g.num_nodes);
    curr = Bitmap.reset (Bitmap.alloc 0 g.num_nodes);
    edges_to_check = pos (num_edges_directed g);
    scout_count = pos (out_degree g source);
  }

  unfoldable pub dobfs : ℕ → Option (List ℤ)
  unfolding search_loop start
  dobfs source = elim (search_loop (suc (suc g.num_nodes)) (start source)) [
    | none ↦ none
    | some s ↦ some (cleanup s.parent)
  ]
