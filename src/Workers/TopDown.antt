-- ===== src/Workers/TopDown.antt =====
-- TDStep of bfs.cc: the workers, in any order, each with its share of the window and its own buffer.
use gapbs_bfs_experiment.Base.{
  get_or-append_right, get_or-append_left, ℕ, ◌+◌, ◌≤◌, ◌<◌, ◌≡◌, refl, ◌∙◌, sym, subst, arith,
  true, List, [], ◌∷◌, ◌++◌, map, foldl, length, get_or, replicate, elem, AllLt, elem-index,
  elem-get_or, elem-map, map-elem, append_assoc, inl, inr, Bool-cases, ◌==◌, ℤ, pos,
}
use gapbs_bfs_experiment.SlidingQueue.{SlidingQueue, create_buffer, size}
use gapbs_bfs_experiment.SlidingQueue.Window.{View, size-View}
use gapbs_bfs_experiment.SlidingQueue.Buffer.{
  create_buffer-Holds, create_buffer-View, flush-View, length-flush,
}
use gapbs_bfs_experiment.Graph.{Graph, out_neigh, Edge, IsValid}
use gapbs_bfs_experiment.Bfs.Parent.{visited, unvisited, visited-lt}
use gapbs_bfs_experiment.Bfs.Level.{Level}
use gapbs_bfs_experiment.Bfs.TopDown.{Scout}
use gapbs_bfs_experiment.Bfs.TopDown.Scan.{Scouted, Visits-outer}
use gapbs_bfs_experiment.Workers.Ranges.{share, owner, share-lt}
use gapbs_bfs_experiment.Workers.Regions.{
  queue_item, TdStepCtx, td_step_worker, td_step_region, AllRun,
}
use gapbs_bfs_experiment.Workers.Orders.{run_order, run_order-AllRun, run_parallel_lem}

-- The items that the workers read are those of the window.
pub queue_item-View :
    {q : SlidingQueue ℕ} {seen shown added : List ℕ} (i : ℕ)
    → View q seen shown added
    → i < length shown
    → queue_item q i ≡ get_or shown i 0
unfolding queue_item
queue_item-View {q} {seen} {shown} {added} i v h =
    let parts : q.shared ≡ seen ++ (shown ++ (added ++ v.free)) = v.parts ∙ simp append_assoc in
    rw
      (
        parts,
        get_or-append_right seen (shown ++ (added ++ v.free)) i (q.out_start + i)
            (omega (arith, v.start)),
      )
      (get_or-append_left shown (added ++ v.free) i h)

-- What a worker starts from.
abbrev as_scout : ℕ → TdStepCtx → Scout
as_scout local_size c = record {
  parent = c.parent;
  queue = c.queue;
  lqueue = create_buffer 0 local_size;
  scout_count = pos 0;
}

module _ (g : Graph) (before : List ℤ) (seen shown : List ℕ) (slots : ℕ)
    (room : length seen + length shown + unvisited before ≤ slots) (local_size nthreads : ℕ)
    (pos_size : 0 < local_size)
    (low : (u : ℕ) → elem u shown ≡ true → AllLt (length before) (out_neigh g u 0)) where
  Sound : TdStepCtx → Type 0
  Sound c = Scouted g before seen shown slots room (as_scout local_size c)

  -- What the workers `tids` have done: the edges out of their shares are followed.
  record Worked (c c' : TdStepCtx) (tids : List ℕ) : Type 0 where
    good : Scouted g before seen shown slots room (as_scout local_size c')
    done :
        (t i v : ℕ)
        → elem t tids ≡ true
        → elem i (share (length shown) nthreads t) ≡ true
        → Edge g (get_or shown i 0) v
        → visited c'.parent v ≡ true
    grows : (v : ℕ) → visited c.parent v ≡ true → visited c'.parent v ≡ true

  module _ (c : TdStepCtx) (t : ℕ) (lt : t < nthreads)
      (w : Scouted g before seen shown slots room (as_scout local_size c)) where
    my_items : List ℕ
    my_items = map (queue_item c.queue) (share (size c.queue) nthreads t)

    item_at :
        (i : ℕ)
        → elem i (share (length shown) nthreads t) ≡ true
        → queue_item c.queue i ≡ get_or shown i 0
    item_at i h = queue_item-View i w.holds.view (share-lt (length shown) nthreads i t lt h)

    items-shown : (u : ℕ) → elem u my_items ≡ true → elem u shown ≡ true
    unfolding my_items
    items-shown u h =
        let len = size-View w.holds.view in
        let (i, mine, image) =
          map-elem (queue_item c.queue) (share (size c.queue) nthreads t) u h in
        let mine' : elem i (share (length shown) nthreads t) ≡ true =
          subst (λ n. elem i (share n nthreads t) ≡ true) len mine in
        let at : get_or shown i 0 ≡ u = sym (item_at i mine') ∙ image in
        subst (λ x. elem x shown ≡ true) at
          (elem-get_or shown i (share-lt (length shown) nthreads i t lt mine'))

    share-items :
        (i : ℕ)
        → elem i (share (length shown) nthreads t) ≡ true
        → elem (get_or shown i 0) my_items ≡ true
    unfolding my_items
    share-items i h =
        let len = size-View w.holds.view in
        let mine : elem i (share (size c.queue) nthreads t) ≡ true =
          subst (λ n. elem i (share n nthreads t) ≡ true) (sym len) h in
        subst (λ x. elem x my_items ≡ true) (item_at i h)
          (elem-map (queue_item c.queue) (share (size c.queue) nthreads t) i mine)

    Worked-worker : Worked c (td_step_worker g local_size t nthreads c) (t ∷ [])
    unfolding td_step_worker my_items
    Worked-worker =
        let (good, done, grows) =
          Visits-outer g before seen shown slots room my_items (as_scout local_size c) w items-shown
            (λ u h. low u (items-shown u h)) in
        record {
          good = record {
            added = good.added;
            same = good.same;
            kept = good.kept;
            fresh = good.fresh;
            news = good.news;
            holds =
                create_buffer-Holds 0 local_size pos_size
                  (flush-View good.holds (omega (arith, good.wide, good.count)));
            wide = length-flush _ _ ∙ good.wide;
            count = good.count;
          };
          done = λ t' i v m mine edge.
              let same : t' ≡ t = ground arith in
              done (get_or shown i 0) v
                (share-items i
                  (subst (λ x. elem i (share (length shown) nthreads x) ≡ true) same mine))
                edge;
          grows = grows;
        }

  Worked-workers :
      (tids : List ℕ) (c : TdStepCtx)
      → ((t : ℕ) → elem t tids ≡ true → t < nthreads)
      → Scouted g before seen shown slots room (as_scout local_size c)
      → Worked c (foldl (λ c t. td_step_worker g local_size t nthreads c) c tids) tids
  Worked-workers [] c lt w = record { good = w; done = λ t i v m. cc; grows = λ v h. h }
  Worked-workers (t ∷ tids) c lt w =
      let one = Worked-worker c t (lt t (ground arith)) w in
      let rest =
        Worked-workers tids (td_step_worker g local_size t nthreads c) (λ x h. lt x (ground arith))
          one.good in
      record {
        good = rest.good;
        done = λ x i v m mine edge. elim (Bool-cases (x == t)) [
          | inl e ↦ rest.grows v (one.done x i v (ground arith) mine edge)
          | inr e ↦ rest.done x i v (ground arith) mine edge
        ];
        grows = λ v h. rest.grows v (one.grows v h);
      }

-- For at least one worker, in any order in which all of them run, and with buffers of any
-- positive size: on a valid graph TDStep follows every edge out of the window and no other
-- edge; the vertices that it visits are those appended to the queue, as many as entries that
-- stopped being negative; the window stays, and so does the size of the array. The window
-- holds visited vertices, nothing was appended before, and the array has a slot for each
-- unvisited vertex.
pub td_step_region-Level :
    (g : Graph) (local_size nthreads : ℕ) (order : List ℕ) (before : List ℤ)
    (queue : SlidingQueue ℕ) (seen shown : List ℕ)
    → IsValid g
    → length before ≡ g.num_nodes
    → 0 < local_size
    → 0 < nthreads
    → AllRun nthreads order
    → View queue seen shown []
    → length seen + length shown + unvisited before ≤ length queue.shared
    → ((u : ℕ) → elem u shown ≡ true → visited before u ≡ true)
    → let (after, queue', scout_count) = td_step_region g local_size nthreads order before queue in
      (added : List ℕ) × Level g before after (λ u. elem u shown) (λ v. elem v added)
      × View queue' seen shown added
      × (length added + unvisited after ≡ unvisited before)
      × (length queue'.shared ≡ length queue.shared)
unfolding td_step_region
td_step_region-Level g local_size nthreads order before queue seen shown valid size pos_size
      pos_threads all view room stale =
    let low : (u : ℕ) → elem u shown ≡ true → AllLt (length before) (out_neigh g u 0) =
      λ u h. rw size (valid.targets u (omega (arith, visited-lt before u (stale u h)))) in
    let start : TdStepCtx = record {
      parent = before;
      queue = queue;
      scout_parts = replicate nthreads (pos 0);
    } in
    let first : Scouted g before seen shown (length queue.shared) room (as_scout local_size start) =
      record {
        added = [];
        same = refl;
        kept = λ v h. refl;
        fresh = λ v h m. cc;
        news = λ v. ground arith;
        holds = create_buffer-Holds 0 local_size pos_size view;
        wide = refl;
        count = omega arith;
      } in
    let runs = run_order-AllRun nthreads order pos_threads all in
    let w =
      Worked-workers g before seen shown (length queue.shared) room local_size nthreads pos_size low
        (run_order nthreads order) start (λ t h. ground (arith, runs t)) first in
    rw (run_parallel_lem nthreads order (td_step_worker g local_size) start pos_threads) (
      w.good.added,
      record {
        size = w.good.same;
        kept = w.good.kept;
        fresh = w.good.fresh;
        full = λ u v h edge.
            let (i, lt, at) = elem-index u shown h in
            let (t, t-lt, mine) = owner (length shown) nthreads i pos_threads lt in
            w.done t i v (ground (arith, runs t)) mine (subst (λ x. Edge g x v) (sym at) edge);
        news = w.good.news;
      },
      create_buffer-View 0 local_size w.good.holds,
      w.good.count,
      w.good.wide,
    )
