-- ===== src/Tests/Regions.antt =====
-- The regions of bfs.cc on the sample graph, with two workers in reversed order.
use gapbs_bfs_experiment.Base.{
  ℕ, ◌+◌, ◌≡◌, refl, arith, ◌&&◌, ◌||◌, List, [], ◌∷◌, ◌++◌, length, ℤ, pos, negsuc, elem, range,
  ltb,
}
use gapbs_bfs_experiment.Bitmap.{get_bit}
use gapbs_bfs_experiment.SlidingQueue.Window.{View}
use gapbs_bfs_experiment.Bfs.Parent.{unvisited, init_parent, cleanup}
use gapbs_bfs_experiment.Bfs.Level.{Level}
use gapbs_bfs_experiment.Bfs.BottomUp.{bu_step}
use gapbs_bfs_experiment.Workers.Ranges.{share, shares, shares_lem, static_range}
use gapbs_bfs_experiment.Workers.Regions.{
  init_parent_region, cleanup_region, queue_to_bitmap_region, bitmap_to_queue_region,
  td_step_region, AllRun,
}
use gapbs_bfs_experiment.Workers.Orders.{run_order}
use gapbs_bfs_experiment.Workers.Entries.{init_parent_region_lem, cleanup_region_lem}
use gapbs_bfs_experiment.Workers.TopDown.{td_step_region-Level}
use gapbs_bfs_experiment.Workers.Frontier.{
  get_bit-queue_to_bitmap_region, found, bitmap_to_queue_region-View,
}
use gapbs_bfs_experiment.Workers.BottomUp.{bu_step_region, bu_step_region_lem}
use gapbs_bfs_experiment.Tests.Kernels.{
  sample, sample-IsValid, first, queue, queue-View, only_source, one_bit, no_bits,
}

abbrev reversed : List ℕ
reversed = 1 ∷ 0 ∷ []

reversed-AllRun : AllRun 2 reversed
reversed-AllRun t = ground arith

ten_over_three :
    (static_range 10 3 0 ≡ (0, 4))
    × (static_range 10 3 1 ≡ (4, 7))
    × (static_range 10 3 2 ≡ (7, 10))
unfolding static_range
ten_over_three = (refl, refl, refl)

shares_lem_example : shares 10 3 (range 0 3) ≡ range 0 10
shares_lem_example = shares_lem 10 3 (omega arith)

init_parent_region_lem_example : init_parent_region sample 2 reversed (pos 7) ≡ init_parent sample
init_parent_region_lem_example =
    init_parent_region_lem sample 2 reversed (pos 7) (omega arith) reversed-AllRun

abbrev ending : List ℤ
ending = pos 0 ∷ negsuc 2 ∷ pos 0 ∷ []

cleanup_region_lem_example : cleanup_region 3 2 reversed ending ≡ cleanup ending
cleanup_region_lem_example = cleanup_region_lem 2 reversed ending (omega arith) reversed-AllRun

td_step_region-Level_example :
    let (after, queue', scout_count) = td_step_region sample 2 2 reversed first queue in
    (added : List ℕ) × Level sample first after (λ u. elem u (0 ∷ [])) (λ v. elem v added)
    × View queue' [] (0 ∷ []) added
    × (length added + unvisited after ≡ unvisited first)
    × (length queue'.shared ≡ length queue.shared)
unfolding sample
td_step_region-Level_example =
    td_step_region-Level sample 2 2 reversed first queue [] (0 ∷ []) sample-IsValid refl
      (omega arith) (omega arith) reversed-AllRun queue-View (omega arith) only_source

get_bit-queue_to_bitmap_region_example :
    get_bit (queue_to_bitmap_region queue 2 reversed no_bits) 0
    ≡ (elem 0 (0 ∷ []) || get_bit no_bits 0)
get_bit-queue_to_bitmap_region_example =
    get_bit-queue_to_bitmap_region 2 reversed queue no_bits [] (0 ∷ []) [] 0 (omega arith)
      reversed-AllRun queue-View (omega arith)

bitmap_to_queue_region-View_example :
    View
      (bitmap_to_queue_region sample 2 one_bit 2 reversed queue)
      ([] ++ 0 ∷ [])
      ([] ++ found sample 2 one_bit (run_order 2 reversed))
      []
    × ((v : ℕ)
        → elem v (found sample 2 one_bit (run_order 2 reversed))
          ≡ (ltb v sample.num_nodes && get_bit one_bit v))
unfolding sample get_bit found shares share static_range
bitmap_to_queue_region-View_example =
    bitmap_to_queue_region-View sample 2 2 one_bit (omega arith) reversed queue [] (0 ∷ []) []
      (omega arith) reversed-AllRun queue-View (omega arith)

bu_step_region_lem_example :
    let s = bu_step_region sample 2 2 (1 ∷ 0 ∷ 1 ∷ 0 ∷ []) first one_bit no_bits in
    let s' = bu_step sample first one_bit no_bits in
    (s.parent ≡ s'.parent) × (s.next ≡ s'.next) × (s.awake_count ≡ s'.awake_count)
unfolding sample
bu_step_region_lem_example =
    bu_step_region_lem sample 2 2 (1 ∷ 0 ∷ 1 ∷ 0 ∷ []) first one_bit no_bits (omega arith)
      (omega arith)
