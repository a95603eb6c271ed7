-- ===== src/Bfs/Convert.antt =====
-- QueueToBitmap and BitmapToQueue of src/bfs.cc, one thread's order.
use gapbs_bfs_experiment.Base.{
  ℕ, ◌+◌, ◌≤◌, ◌<◌, ◌≡◌, refl, ap, ◌∙◌, arith, Bool, ◌&&◌, ◌||◌, List, [], ◌∷◌, ◌++◌, foldl, length,
  elem, range, AllLt, if◌then◌else◌, inl, inr, Bool-cases,
}
use gapbs_bfs_experiment.Bitmap
use gapbs_bfs_experiment.Bitmap.{Bitmap}
use gapbs_bfs_experiment.Bitmap.Bits
use gapbs_bfs_experiment.Bitmap.Races.{
  set_bits, size-set_bits, get_bit-set_bits, set_bit_atomic_alone,
}
use gapbs_bfs_experiment.SlidingQueue.{
  SlidingQueue, QueueBuffer, window, create_buffer, buffer_push, flush, slide_window,
}
use gapbs_bfs_experiment.SlidingQueue.Window.{View, window-View, slide_window-View}
use gapbs_bfs_experiment.SlidingQueue.Buffer.{
  buffer_push_all, flush-buffer_push_all, length-flush, length-buffer_push_all,
}
use gapbs_bfs_experiment.Graph.{Graph}

unfoldable pub queue_to_bitmap : SlidingQueue ℕ → Bitmap → Bitmap
queue_to_bitmap queue bm = foldl (λ b u. (Bitmap.set_bit_atomic b u []).0) bm (window queue)

-- The body of the loop over the vertices.
unfoldable pub push_if_set :
    Bitmap → SlidingQueue ℕ × QueueBuffer ℕ → ℕ → SlidingQueue ℕ × QueueBuffer ℕ
push_if_set bm (queue, lqueue) n =
    if Bitmap.get_bit bm n then buffer_push queue lqueue n else (queue, lqueue)

-- `local_size` is the size of the buffer, 16384 in the source.
unfoldable pub bitmap_to_queue : Graph → ℕ → Bitmap → SlidingQueue ℕ → SlidingQueue ℕ
unfolding push_if_set
bitmap_to_queue g local_size bm queue =
    let s = foldl (push_if_set bm) (queue, create_buffer 0 local_size) (range 0 g.num_nodes) in
    slide_window (flush s.0 s.1).0

set_in_turn :
    (us : List ℕ) (bm : Bitmap)
    → foldl (λ b u. (Bitmap.set_bit_atomic b u []).0) bm us ≡ set_bits us bm
set_in_turn [] bm = refl
set_in_turn (u ∷ us) bm =
    ap (λ b. foldl (λ b u. (Bitmap.set_bit_atomic b u []).0) b us) (set_bit_atomic_alone bm u)
    ∙ set_in_turn us (Bitmap.set_bit bm u)

-- The bits of the window's vertices are set, and the other bits are as before.
pub get_bit-queue_to_bitmap :
    (queue : SlidingQueue ℕ) (bm : Bitmap) (seen shown added : List ℕ) (v : ℕ)
    → View queue seen shown added
    → AllLt (Bits.size bm) shown
    → Bitmap.get_bit (queue_to_bitmap queue bm) v ≡ (elem v shown || Bitmap.get_bit bm v)
unfolding queue_to_bitmap
get_bit-queue_to_bitmap queue bm seen shown added v view low =
    rw (window-View view, set_in_turn shown bm) (get_bit-set_bits shown bm v low)

pub size-queue_to_bitmap :
    (queue : SlidingQueue ℕ) (bm : Bitmap) → Bits.size (queue_to_bitmap queue bm) ≡ Bits.size bm
unfolding queue_to_bitmap
size-queue_to_bitmap queue bm =
    ap Bits.size (set_in_turn (window queue) bm) ∙ size-set_bits (window queue) bm

-- The members of a list that pass a test.
abbrev pub selected : (ℕ → Bool) → List ℕ → List ℕ
selected f [] = []
selected f (u ∷ us) = if f u then u ∷ selected f us else selected f us

pub elem-selected :
    (f : ℕ → Bool) (us : List ℕ) (v : ℕ) → elem v (selected f us) ≡ (elem v us && f v)
elem-selected f [] v = refl
elem-selected f (u ∷ us) v = ground (arith, elem-selected f us v)

pub push_in_turn :
    (us : List ℕ) (bm : Bitmap) (s : SlidingQueue ℕ × QueueBuffer ℕ)
    → foldl (push_if_set bm) s us ≡ buffer_push_all s (selected (Bitmap.get_bit bm) us)
unfolding push_if_set buffer_push_all
push_in_turn [] bm s = refl
push_in_turn (u ∷ us) bm s = elim (Bool-cases (Bitmap.get_bit bm u)) [
  | inl e ↦ rw e (push_in_turn us bm (buffer_push s.0 s.1 u))
  | inr e ↦ rw e (push_in_turn us bm s)
]

module _ (g : Graph) (local_size : ℕ) (bm : Bitmap) (queue : SlidingQueue ℕ) where
  abbrev set_vertices : List ℕ
  set_vertices = selected (Bitmap.get_bit bm) (range 0 g.num_nodes)

  -- The new window holds the vertices whose bits are set, in increasing order.
  pub bitmap_to_queue-View :
      (seen shown added : List ℕ)
      → 0 < local_size
      → View queue seen shown added
      → length seen + length shown + length added + length set_vertices ≤ length queue.shared
      → View (bitmap_to_queue g local_size bm queue) (seen ++ shown) (added ++ set_vertices) []
  unfolding bitmap_to_queue
  bitmap_to_queue-View seen shown added pos_size view room =
      rw (push_in_turn (range 0 g.num_nodes) bm (queue, create_buffer 0 local_size))
        (slide_window-View (flush-buffer_push_all 0 local_size set_vertices pos_size view room))

  pub length-bitmap_to_queue :
      length (bitmap_to_queue g local_size bm queue).shared ≡ length queue.shared
  unfolding bitmap_to_queue slide_window
  length-bitmap_to_queue =
      rw (push_in_turn (range 0 g.num_nodes) bm (queue, create_buffer 0 local_size))
        (length-flush _ _ ∙ length-buffer_push_all (queue, create_buffer 0 local_size) set_vertices)
