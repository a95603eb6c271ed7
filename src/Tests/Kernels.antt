-- ===== src/Tests/Kernels.antt =====
-- The search of src/bfs.cc on a directed graph of five vertices.
use gapbs_bfs_experiment.Base.{
  ℕ, zero, suc, ◌+◌, ◌*◌, ◌≤◌, ◌≡◌, ◌↔◌, refl, arith, Bool, true, false, List, [], ◌∷◌, ◌++◌, some,
  length, ℤ, pos, negsuc, elem, drop, ◌||◌, ◌==◌, if◌then◌else◌, map,
}
use gapbs_bfs_experiment.Graph.{
  Graph, directed_graph, out_neigh, in_neigh, out_degree, num_edges_directed, vertices, IsValid,
}
use gapbs_bfs_experiment.Graph.Check.{valid_graph, valid_graph-IsValid}
use gapbs_bfs_experiment.Bitmap as Bitmaps
use gapbs_bfs_experiment.Bitmap.{Bitmap, get_bit, set_bit, set_bit_atomic, alloc, with_bit}
use gapbs_bfs_experiment.Bitmap.Bits.{get_bit-set_bit, get_bit-reset}
use gapbs_bfs_experiment.Bitmap.Races.{
  get_bit-set_bit_atomic, set_bit_atomic-set_bit, acted, act_all, setters, some_round,
}
use gapbs_bfs_experiment.SlidingQueue.{
  SlidingQueue, create, push_back, slide_window, flush, create_buffer, buffer_push, empty, size,
  window,
}
use gapbs_bfs_experiment.SlidingQueue
use gapbs_bfs_experiment.SlidingQueue.Window.{View}
use gapbs_bfs_experiment.SlidingQueue.Buffer.{buffer_push_all, flush-buffer_push_all}
use gapbs_bfs_experiment.Bfs.Parent
use gapbs_bfs_experiment.Bfs.Parent.{visited, unvisited, init_parent, initial_entry, cleanup}
use gapbs_bfs_experiment.Bfs.Level.{Level}
use gapbs_bfs_experiment.Bfs.TopDown.{td_step, td_visit, claim}
use gapbs_bfs_experiment.Bfs.TopDown.Scan.{td_step-Level}
use gapbs_bfs_experiment.Bfs.BottomUp.{bu_step}
use gapbs_bfs_experiment.Bfs.BottomUp.Scan.{bu_step-Level}
use gapbs_bfs_experiment.Bfs.Convert.{
  bitmap_to_queue, bitmap_to_queue-View, queue_to_bitmap, get_bit-queue_to_bitmap,
}
use gapbs_bfs_experiment.Bfs.Search.{Tuning, dobfs}
use gapbs_bfs_experiment.Bfs.Search.Correct.{IsBfsTree, dobfs_lem}
use gapbs_bfs_experiment.Bfs.Search.Phases.{IsSound}
use gapbs_bfs_experiment.Bfs.Accepted.{bfs_verifier-dobfs}
use gapbs_bfs_experiment.Bfs.Verifier.{bfs_verifier, depths_from}
use gapbs_bfs_experiment.Bfs.Verifier.Accepts.{bfs_verifier_lem}

-- 0 → 1, 0 → 2, 1 → 3, 2 → 3, 3 → 0, 4 → 3
unfoldable pub sample : Graph
unfolding directed_graph
sample =
    directed_graph 5 (0 ∷ 2 ∷ 3 ∷ 4 ∷ 5 ∷ 6 ∷ []) (1 ∷ 2 ∷ 3 ∷ 3 ∷ 0 ∷ 3 ∷ [])
      (0 ∷ 1 ∷ 2 ∷ 3 ∷ 6 ∷ 6 ∷ []) (3 ∷ 0 ∷ 0 ∷ 1 ∷ 2 ∷ 4 ∷ [])

abbrev usual : Tuning
usual = record { alpha = pos 15; beta = pos 18; max_bu_iters = pos 0; local_size = 2 }

pub sample-IsValid : IsValid sample
unfolding sample valid_graph out_neigh in_neigh out_degree
sample-IsValid = valid_graph-IsValid sample refl

usual-IsSound : IsSound usual
usual-IsSound = record {
  alpha_nonzero = omega arith;
  beta_positive = omega arith;
  buffered = omega arith;
}

abbrev tree : List ℤ
tree = pos 0 ∷ pos 0 ∷ pos 0 ∷ pos 1 ∷ negsuc 0 ∷ []

dobfs_runs : dobfs sample usual 0 ≡ some tree
unfolding sample dobfs init_parent initial_entry num_edges_directed out_degree out_neigh in_neigh
    alloc Bitmaps.reset get_bit set_bit with_bit set_bit_atomic bu_step td_step td_visit claim
    queue_to_bitmap bitmap_to_queue create push_back slide_window empty size window buffer_push
    flush create_buffer cleanup Parent.compare_and_swap SlidingQueue.reset
dobfs_runs = refl

dobfs_lem_example :
    (parent : List ℤ) × (dobfs sample usual 0 ≡ some parent) × IsBfsTree sample 0 parent
unfolding sample
dobfs_lem_example = dobfs_lem sample usual 0 sample-IsValid usual-IsSound (omega arith)

bfs_verifier_runs :
    (bfs_verifier sample 0 tree ≡ some true)
    × (bfs_verifier sample 0 (pos 0 ∷ pos 0 ∷ pos 0 ∷ pos 4 ∷ negsuc 0 ∷ []) ≡ some false)
unfolding sample bfs_verifier depths_from out_neigh in_neigh vertices
bfs_verifier_runs = (refl, refl)

bfs_verifier_lem_example :
    (accepted : Bool) × (bfs_verifier sample 0 tree ≡ some accepted)
    × ((accepted ≡ true) ↔ IsBfsTree sample 0 tree)
unfolding sample
bfs_verifier_lem_example = bfs_verifier_lem sample 0 tree sample-IsValid (omega arith) refl

bfs_verifier-dobfs_example :
    (parent : List ℤ) × (dobfs sample usual 0 ≡ some parent)
    × (bfs_verifier sample 0 parent ≡ some true)
unfolding sample
bfs_verifier-dobfs_example =
    bfs_verifier-dobfs sample usual 0 sample-IsValid usual-IsSound (omega arith)

-- Before the first step: only the source is visited, and it is the window.
abbrev pub first : List ℤ
first = pos 0 ∷ negsuc 0 ∷ negsuc 0 ∷ negsuc 0 ∷ negsuc 0 ∷ []

abbrev pub slots : List ℕ
slots = 0 ∷ 0 ∷ 0 ∷ 0 ∷ 0 ∷ []

abbrev pub queue : SlidingQueue ℕ
queue = record { shared = slots; shared_in = 1; out_start = 0; out_end = 1 }

pub queue-View : View queue [] (0 ∷ []) []
queue-View = record {
  free = 0 ∷ 0 ∷ 0 ∷ 0 ∷ [];
  parts = refl;
  start = refl;
  stop = refl;
  next = refl;
}

pub only_source : (u : ℕ) → elem u (0 ∷ []) ≡ true → visited first u ≡ true
only_source zero h = refl
only_source (suc u) h = ground arith

td_step-Level_example :
    let (after, queue', scout_count) = td_step sample 2 first queue in
    (added : List ℕ) × Level sample first after (λ u. elem u (0 ∷ [])) (λ v. elem v added)
    × View queue' [] (0 ∷ []) added
    × (length added + unvisited after ≡ unvisited first)
    × (length queue'.shared ≡ length queue.shared)
unfolding sample
td_step-Level_example =
    td_step-Level sample 2 first queue [] (0 ∷ []) sample-IsValid refl (omega arith) queue-View
      (omega arith) only_source

-- The bitmap with bit 0.
abbrev pub one_bit : Bitmap
one_bit = record { words = 1 ∷ [] }

abbrev pub no_bits : Bitmap
no_bits = record { words = 0 ∷ [] }

abbrev two_words : Bitmap
two_words = record { words = 2 ∷ 0 ∷ [] }

one_bit_is_set_bit : set_bit no_bits 0 ≡ one_bit
unfolding set_bit
one_bit_is_set_bit = refl

front_visited : (u : ℕ) → get_bit one_bit u ≡ true → visited first u ≡ true
front_visited zero h = refl
front_visited (suc u) h = ground (
  arith,
  one_bit_is_set_bit,
  get_bit-set_bit no_bits 0 (suc u) (omega arith),
  get_bit-no_bits (suc u),
)
  where
    get_bit-no_bits : (q : ℕ) → get_bit no_bits q ≡ false
    get_bit-no_bits q = unfold Bitmaps.reset in get_bit-reset no_bits q

bu_step-Level_example :
    let s = bu_step sample first one_bit no_bits in
    Level sample first s.parent (get_bit one_bit) (get_bit s.next)
    × (5 ≤ 64 * length s.next.words)
    × (s.awake_count + unvisited s.parent ≡ unvisited first)
unfolding sample
bu_step-Level_example =
    bu_step-Level sample first one_bit no_bits sample-IsValid refl (omega arith) front_visited

get_bit-set_bit_example :
    get_bit (set_bit two_words 70) 6 ≡ (if 70 == 6 then true else get_bit two_words 6)
get_bit-set_bit_example = get_bit-set_bit two_words 70 6 (omega arith)

-- Two bits in the first round, none in the second, one in the third.
abbrev others : List (List ℕ)
others = (4 ∷ 7 ∷ []) ∷ [] ∷ (9 ∷ []) ∷ []

get_bit-set_bit_atomic_example :
    let (b', later) = set_bit_atomic no_bits 5 (map setters others) in
    get_bit (act_all later b') 9 ≡ (5 == 9 || (some_round 9 others || get_bit no_bits 9))
get_bit-set_bit_atomic_example =
    get_bit-set_bit_atomic no_bits 5 9 others (omega arith)
      ((omega arith, (omega arith, tt)), (tt, ((omega arith, tt), tt)))

set_bit_atomic-set_bit_example :
    (k : ℕ) × (set_bit_atomic no_bits 5 (map setters others)
      ≡ (set_bit (acted k (map setters others) no_bits) 5, drop k (map setters others)))
set_bit_atomic-set_bit_example = set_bit_atomic-set_bit no_bits 5 (map setters others)

flush-buffer_push_all_example :
    let s = buffer_push_all (queue, create_buffer 0 2) (3 ∷ 1 ∷ 2 ∷ []) in
    View (flush s.0 s.1).0 [] (0 ∷ []) (3 ∷ 1 ∷ 2 ∷ [])
flush-buffer_push_all_example =
    flush-buffer_push_all 0 2 (3 ∷ 1 ∷ 2 ∷ []) (omega arith) queue-View (omega arith)

bitmap_to_queue-View_example :
    View (bitmap_to_queue sample 2 one_bit queue) ([] ++ 0 ∷ []) ([] ++ 0 ∷ []) []
unfolding sample get_bit
bitmap_to_queue-View_example =
    bitmap_to_queue-View sample 2 one_bit queue [] (0 ∷ []) [] (omega arith) queue-View
      (omega arith)

get_bit-queue_to_bitmap_example :
    get_bit (queue_to_bitmap queue no_bits) 0 ≡ (elem 0 (0 ∷ []) || get_bit no_bits 0)
get_bit-queue_to_bitmap_example =
    get_bit-queue_to_bitmap queue no_bits [] (0 ∷ []) [] 0 queue-View (omega arith)
