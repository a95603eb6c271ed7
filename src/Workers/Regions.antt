-- ===== src/Workers/Regions.antt =====
-- The parallel regions of bfs.cc. The workers of a region run one after the other, in any order.
use gapbs_bfs_experiment.Base.{
  ℕ, ◌+◌, ◌≡◌, List, [], map, foldl, get_or, set, replicate, elem, ltb, leb, if◌then◌else◌, ℤ, pos,
  minus_one, ◌+ℤ◌, ltb_ℤ,
}
use gapbs_bfs_experiment.Bitmap
use gapbs_bfs_experiment.Bitmap.{Bitmap}
use gapbs_bfs_experiment.SlidingQueue
use gapbs_bfs_experiment.SlidingQueue.{SlidingQueue}
use gapbs_bfs_experiment.Graph.{Graph, out_degree}
use gapbs_bfs_experiment.Bfs.Parent.{parent_at, initial_entry}
use gapbs_bfs_experiment.Bfs.TopDown.{Scout, td_expand}
use gapbs_bfs_experiment.Bfs.Convert.{push_if_set}
use gapbs_bfs_experiment.Workers.Ranges.{share}

-- `order` is the order in which the spawned workers and the caller happen to run.
unfoldable pub run_parallel {ℓ} : {C : Type ℓ} → ℕ → List ℕ → (ℕ → ℕ → C → C) → C → C
run_parallel nthreads order fn ctx =
    if leb nthreads 1 then fn 0 1 ctx else foldl (λ c t. fn t nthreads c) ctx order

-- InitParentWorker; the array is as long as the graph has vertices.
unfoldable pub init_parent_worker : Graph → ℕ → ℕ → List ℤ → List ℤ
init_parent_worker g tid nthreads parent =
    foldl (λ p n. set p n (initial_entry (out_degree g n))) parent (share g.num_nodes nthreads tid)

-- `fresh` stands for what the new array holds.
unfoldable pub init_parent_region : Graph → ℕ → List ℕ → ℤ → List ℤ
unfolding run_parallel init_parent_worker
init_parent_region g nthreads order fresh =
    run_parallel nthreads order (init_parent_worker g) (replicate g.num_nodes fresh)

unfoldable pub clean_entry : List ℤ → ℕ → List ℤ
clean_entry parent n =
    if ltb_ℤ (parent_at parent n) minus_one then set parent n minus_one else parent

unfoldable pub cleanup_worker : ℕ → ℕ → ℕ → List ℤ → List ℤ
unfolding clean_entry
cleanup_worker num_nodes tid nthreads parent =
    foldl clean_entry parent (share num_nodes nthreads tid)

unfoldable pub cleanup_region : ℕ → ℕ → List ℕ → List ℤ → List ℤ
unfolding run_parallel cleanup_worker
cleanup_region num_nodes nthreads order parent =
    run_parallel nthreads order (cleanup_worker num_nodes) parent

-- *(queue.begin() + i)
unfoldable pub queue_item : SlidingQueue ℕ → ℕ → ℕ
queue_item queue i = get_or queue.shared (queue.out_start + i) 0

unfoldable pub queue_to_bitmap_worker : SlidingQueue ℕ → ℕ → ℕ → Bitmap → Bitmap
unfolding queue_item
queue_to_bitmap_worker queue tid nthreads bm =
    foldl (λ b i. (Bitmap.set_bit_atomic b (queue_item queue i) []).0) bm
      (share (SlidingQueue.size queue) nthreads tid)

unfoldable pub queue_to_bitmap_region : SlidingQueue ℕ → ℕ → List ℕ → Bitmap → Bitmap
unfolding run_parallel queue_to_bitmap_worker
queue_to_bitmap_region queue nthreads order bm =
    run_parallel nthreads order (queue_to_bitmap_worker queue) bm

unfoldable pub bitmap_to_queue_worker : Graph → ℕ → Bitmap → ℕ → ℕ → SlidingQueue ℕ → SlidingQueue ℕ
unfolding push_if_set
bitmap_to_queue_worker g local_size bm tid nthreads queue =
    let s =
      foldl (push_if_set bm) (queue, SlidingQueue.create_buffer 0 local_size)
        (share g.num_nodes nthreads tid) in
    (SlidingQueue.flush s.0 s.1).0

unfoldable pub bitmap_to_queue_region :
    Graph → ℕ → Bitmap → ℕ → List ℕ → SlidingQueue ℕ → SlidingQueue ℕ
unfolding run_parallel bitmap_to_queue_worker
bitmap_to_queue_region g local_size bm nthreads order queue =
    SlidingQueue.slide_window
      (run_parallel nthreads order (bitmap_to_queue_worker g local_size bm) queue)

-- TDStepCtx
pub record TdStepCtx : Type 0 where
  pub parent : List ℤ
  pub queue : SlidingQueue ℕ
  pub scout_parts : List ℤ

unfoldable pub td_step_worker : Graph → ℕ → ℕ → ℕ → TdStepCtx → TdStepCtx
unfolding queue_item td_expand
td_step_worker g local_size tid nthreads c =
    let my_items = map (queue_item c.queue) (share (SlidingQueue.size c.queue) nthreads tid) in
    let s : Scout =
      foldl (td_expand g)
        (record {
          parent = c.parent;
          queue = c.queue;
          lqueue = SlidingQueue.create_buffer 0 local_size;
          scout_count = pos 0;
        })
        my_items in
    record {
      parent = s.parent;
      queue = (SlidingQueue.flush s.queue s.lqueue).0;
      scout_parts = set c.scout_parts tid s.scout_count;
    }

-- The result is that of td_step: the parent array, the queue and the sum of the scout counts.
unfoldable pub td_step_region :
    Graph → ℕ → ℕ → List ℕ → List ℤ → SlidingQueue ℕ → List ℤ × SlidingQueue ℕ × ℤ
unfolding run_parallel td_step_worker
td_step_region g local_size nthreads order parent queue =
    let c =
      run_parallel nthreads order (td_step_worker g local_size)
        (record { parent = parent; queue = queue; scout_parts = replicate nthreads (pos 0) }) in
    (c.parent, c.queue, foldl (λ sum v. sum +ℤ v) (pos 0) c.scout_parts)

-- Each of the workers runs.
abbrev pub AllRun : ℕ → List ℕ → Type 0
AllRun nthreads order = (t : ℕ) → elem t order ≡ ltb t nthreads
