-- ===== src/Workers/Frontier.antt =====
-- QueueToBitmap and BitmapToQueue of bfs.cc, in any order of the workers.
use gapbs_bfs_experiment.Base.{
  ℕ, zero, suc, ◌+◌, ◌≤◌, ◌<◌, ◌≡◌, refl, ap, ◌∙◌, sym, subst, arith, Bool, true, ◌&&◌, ◌||◌, List,
  [], ◌∷◌, ◌++◌, map, foldl, length, get_or, elem, AllLt, elem-index, elem-get_or, elem-map,
  map-elem, append_assoc, append-nil, length-append, ltb, inl, inr, Bool-cases,
}
use gapbs_bfs_experiment.Bitmap
use gapbs_bfs_experiment.Bitmap.{Bitmap}
use gapbs_bfs_experiment.Bitmap.Bits
use gapbs_bfs_experiment.Bitmap.Races.{set_bits, get_bit-set_bits, set_bit_atomic_alone}
use gapbs_bfs_experiment.SlidingQueue.{SlidingQueue, create_buffer, size, flush}
use gapbs_bfs_experiment.SlidingQueue.Window.{View, size-View, slide_window-View}
use gapbs_bfs_experiment.SlidingQueue.Buffer.{
  buffer_push_all, flush-buffer_push_all, length-flush, length-buffer_push_all,
}
use gapbs_bfs_experiment.Graph.{Graph}
use gapbs_bfs_experiment.Bfs.Convert.{push_in_turn, selected, elem-selected}
use gapbs_bfs_experiment.Workers.Ranges.{share, shares}
use gapbs_bfs_experiment.Workers.Regions.{
  queue_item, queue_to_bitmap_worker, queue_to_bitmap_region, bitmap_to_queue_worker,
  bitmap_to_queue_region, AllRun,
}
use gapbs_bfs_experiment.Workers.Orders.{
  run_order, run_order-AllRun, run_parallel_lem, foldl-shares, elem-shares_all,
}
use gapbs_bfs_experiment.Workers.TopDown.{queue_item-View}

sets_in_turn :
    (item : ℕ → ℕ) (ns : List ℕ) (bm : Bitmap)
    → foldl (λ b i. (Bitmap.set_bit_atomic b (item i) []).0) bm ns ≡ set_bits (map item ns) bm
sets_in_turn item [] bm = refl
sets_in_turn item (n ∷ ns) bm =
    ap (λ b. foldl (λ b i. (Bitmap.set_bit_atomic b (item i) []).0) b ns)
      (set_bit_atomic_alone bm (item n))
    ∙ sets_in_turn item ns (Bitmap.set_bit bm (item n))

AllLt-map :
    (n : ℕ) (item : ℕ → ℕ) (xs : List ℕ)
    → ((x : ℕ) → elem x xs ≡ true → item x < n)
    → AllLt n (map item xs)
AllLt-map n item [] h = tt
AllLt-map n item (x ∷ xs) h = (h x (ground arith), AllLt-map n item xs (λ y m. h y (ground arith)))

AllLt-get_or : (n : ℕ) (xs : List ℕ) (i : ℕ) → AllLt n xs → i < length xs → get_or xs i 0 < n
AllLt-get_or n [] i low h = elim h [ ]
AllLt-get_or n (x ∷ xs) zero low h = low.0
AllLt-get_or n (x ∷ xs) (suc i) low h = AllLt-get_or n xs i low.1 (omega arith)

module _ (queue : SlidingQueue ℕ) (seen shown added : List ℕ) (view : View queue seen shown added)
    (ns : List ℕ) (dealt : (i : ℕ) → elem i ns ≡ ltb i (length shown)) where
  items_in : (v : ℕ) → elem v (map (queue_item queue) ns) ≡ true → elem v shown ≡ true
  items_in v h =
      let (i, mine, image) = map-elem (queue_item queue) ns v h in
      let lt : i < length shown = ground (arith, dealt i) in
      subst (λ x. elem x shown ≡ true) (sym (queue_item-View i view lt) ∙ image)
        (elem-get_or shown i lt)

  in_items : (v : ℕ) → elem v shown ≡ true → elem v (map (queue_item queue) ns) ≡ true
  in_items v h =
      let (i, lt, at) = elem-index v shown h in
      subst (λ x. elem x (map (queue_item queue) ns) ≡ true) (queue_item-View i view lt ∙ at)
        (elem-map (queue_item queue) ns i (ground (arith, dealt i)))

  elem-items : (v : ℕ) → elem v (map (queue_item queue) ns) ≡ elem v shown
  elem-items v = elim (Bool-cases (elem v shown)) [
    | inl e ↦ rw (in_items v e, e) refl
    | inr e ↦ elim (Bool-cases (elem v (map (queue_item queue) ns))) [
      | inl m ↦ let wrong = items_in v m in cc
      | inr m ↦ rw (m, e) refl
    ]
  ]

  items-AllLt : (n : ℕ) → AllLt n shown → AllLt n (map (queue_item queue) ns)
  items-AllLt n low = AllLt-map n (queue_item queue) ns (λ i m.
      let lt : i < length shown = ground (arith, dealt i) in
      rw (queue_item-View i view lt) (AllLt-get_or n shown i low lt))

-- For at least one worker, and in any order in which all of them run: QueueToBitmap sets the
-- bits of the vertices in the window of the queue and leaves the other bits as they were, if
-- those vertices are inside the bitmap.
pub get_bit-queue_to_bitmap_region :
    (nthreads : ℕ) (order : List ℕ) (queue : SlidingQueue ℕ) (bm : Bitmap)
    (seen shown added : List ℕ) (v : ℕ)
    → 0 < nthreads
    → AllRun nthreads order
    → View queue seen shown added
    → AllLt (Bits.size bm) shown
    → Bitmap.get_bit (queue_to_bitmap_region queue nthreads order bm) v
      ≡ (elem v shown || Bitmap.get_bit bm v)
unfolding queue_to_bitmap_region queue_to_bitmap_worker
get_bit-queue_to_bitmap_region nthreads order queue bm seen shown added v h all view low =
    let tids = run_order nthreads order in
    let ns = shares (size queue) nthreads tids in
    let len = size-View view in
    let dealt : (i : ℕ) → elem i ns ≡ ltb i (length shown) = λ i.
      elem-shares_all (size queue) nthreads tids i h (run_order-AllRun nthreads order h all)
      ∙ ap (ltb i) len in
    rw
      (
        run_parallel_lem nthreads order (queue_to_bitmap_worker queue) bm h,
        foldl-shares (size queue) nthreads
            (λ b i. (Bitmap.set_bit_atomic b (queue_item queue i) []).0) tids bm,
        sets_in_turn (queue_item queue) ns bm,
        get_bit-set_bits (map (queue_item queue) ns) bm v
            (items-AllLt queue seen shown added view ns dealt (Bits.size bm) low),
        elem-items queue seen shown added view ns dealt v,
      )
      refl

selected-append :
    (f : ℕ → Bool) (xs ys : List ℕ) → selected f (xs ++ ys) ≡ selected f xs ++ selected f ys
selected-append f [] ys = refl
selected-append f (x ∷ xs) ys = elim (Bool-cases (f x)) [
  | inl e ↦ rw e (ap (◌∷◌ x) (selected-append f xs ys))
  | inr e ↦ rw e (selected-append f xs ys)
]

module _ (g : Graph) (nthreads : ℕ) (bm : Bitmap) where
  -- The vertices with a bit, in the order in which the workers `tids` meet them.
  unfoldable pub found : List ℕ → List ℕ
  found tids = selected (Bitmap.get_bit bm) (shares g.num_nodes nthreads tids)

  one_found : ℕ → List ℕ
  one_found t = selected (Bitmap.get_bit bm) (share g.num_nodes nthreads t)

  found-cons : (t : ℕ) (tids : List ℕ) → found (t ∷ tids) ≡ one_found t ++ found tids
  unfolding found one_found shares
  found-cons t tids =
      selected-append (Bitmap.get_bit bm) (share g.num_nodes nthreads t)
        (shares g.num_nodes nthreads tids)

  found-nil : found [] ≡ []
  unfolding found shares
  found-nil = refl

  elem-found :
      (v : ℕ) (tids : List ℕ)
      → elem v (found tids) ≡ (elem v (shares g.num_nodes nthreads tids) && Bitmap.get_bit bm v)
  unfolding found
  elem-found v tids = elem-selected (Bitmap.get_bit bm) (shares g.num_nodes nthreads tids) v

module _ (g : Graph) (local_size nthreads : ℕ) (bm : Bitmap) (pos_size : 0 < local_size) where
  worker_pushes :
      (t : ℕ) (queue : SlidingQueue ℕ)
      → let s = buffer_push_all (queue, create_buffer 0 local_size) (one_found g nthreads bm t) in
        bitmap_to_queue_worker g local_size bm t nthreads queue ≡ (flush s.0 s.1).0
  unfolding bitmap_to_queue_worker one_found
  worker_pushes t queue =
      ap (λ s. (flush s.0 s.1).0)
        (push_in_turn (share g.num_nodes nthreads t) bm (queue, create_buffer 0 local_size))

  View-worker :
      (t : ℕ) (queue : SlidingQueue ℕ) (seen shown added : List ℕ)
      → View queue seen shown added
      → length seen + length shown + length added + length (one_found g nthreads bm t)
        ≤ length queue.shared
      → View
          (bitmap_to_queue_worker g local_size bm t nthreads queue)
          seen
          shown
          (added ++ one_found g nthreads bm t)
  View-worker t queue seen shown added view room =
      rw (worker_pushes t queue)
        (flush-buffer_push_all 0 local_size (one_found g nthreads bm t) pos_size view room)

  length-worker :
      (t : ℕ) (queue : SlidingQueue ℕ)
      → length (bitmap_to_queue_worker g local_size bm t nthreads queue).shared
        ≡ length queue.shared
  length-worker t queue =
      ap (λ q. length q.shared) (worker_pushes t queue)
      ∙ length-flush _ _
      ∙ length-buffer_push_all (queue, create_buffer 0 local_size) (one_found g nthreads bm t)

  View-workers :
      (tids : List ℕ) (queue : SlidingQueue ℕ) (seen shown added : List ℕ)
      → View queue seen shown added
      → length seen + length shown + length added + length (found g nthreads bm tids)
        ≤ length queue.shared
      → View
          (foldl (λ q t. bitmap_to_queue_worker g local_size bm t nthreads q) queue tids)
          seen
          shown
          (added ++ found g nthreads bm tids)
  View-workers [] queue seen shown added view room =
      rw (found-nil g nthreads bm) (rw (append-nil added) view)
  View-workers (t ∷ tids) queue seen shown added view room =
      let split = found-cons g nthreads bm t tids in
      let sum = length-append (one_found g nthreads bm t) (found g nthreads bm tids) in
      let queue' = bitmap_to_queue_worker g local_size bm t nthreads queue in
      let one = View-worker t queue seen shown added view (omega (arith, ap length split)) in
      let rest = View-workers tids queue' seen shown (added ++ one_found g nthreads bm t) one (
        omega (
          arith,
          ap length split,
          length-append added (one_found g nthreads bm t),
          length-worker t queue,
        )) in
      subst (View _ seen shown)
        (append_assoc added (one_found g nthreads bm t) (found g nthreads bm tids)
          ∙ ap (◌++◌ added) (sym split))
        rest

  -- For at least one worker, in any order in which all of them run, and with buffers of any
  -- positive size: after BitmapToQueue the window holds what was appended before and then what
  -- the workers found, which are the vertices of the graph whose bits are set, and no other.
  -- The array has a slot for each of them.
  pub bitmap_to_queue_region-View :
      (order : List ℕ) (queue : SlidingQueue ℕ) (seen shown added : List ℕ)
      → 0 < nthreads
      → AllRun nthreads order
      → View queue seen shown added
      → length seen
          + length shown
          + length added
          + length (found g nthreads bm (run_order nthreads order))
        ≤ length queue.shared
      → View
          (bitmap_to_queue_region g local_size bm nthreads order queue)
          (seen ++ shown)
          (added ++ found g nthreads bm (run_order nthreads order))
          []
        × ((v : ℕ)
            → elem v (found g nthreads bm (run_order nthreads order))
              ≡ (ltb v g.num_nodes && Bitmap.get_bit bm v))
  unfolding bitmap_to_queue_region
  bitmap_to_queue_region-View order queue seen shown added h all view room =
      let tids = run_order nthreads order in
      let runs = run_order-AllRun nthreads order h all in
      (
        rw (run_parallel_lem nthreads order (bitmap_to_queue_worker g local_size bm) queue h)
            (slide_window-View (View-workers tids queue seen shown added view room)),
        λ v.
            elem-found g nthreads bm v tids
            ∙ ap (λ b. b && Bitmap.get_bit bm v)
                (elem-shares_all g.num_nodes nthreads tids v h runs),
      )
