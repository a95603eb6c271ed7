-- ===== src/Bfs/TopDown/Scan.antt =====
-- TDStep of src/bfs.cc visits the vertices with an edge from the window, and appends them to the queue.
use gapbs_bfs_experiment.Base.{
  ℕ, ◌+◌, ◌≤◌, ◌<◌, ◌≡◌, refl, ◌∙◌, arith, Bool, true, false, not, ◌&&◌, List, [], ◌∷◌, ◌++◌, foldl,
  length, set, elem, elem-append, get_or-set, length-append, length-set, AllLt, inl, inr,
  Bool-cases, ◌==◌, ℤ, pos, minus_one, is_neg,
}
use gapbs_bfs_experiment.SlidingQueue.{SlidingQueue, create_buffer}
use gapbs_bfs_experiment.SlidingQueue.Window.{View, window-View}
use gapbs_bfs_experiment.SlidingQueue.Buffer.{
  Holds, buffer_push-Holds, length-buffer_push, create_buffer-Holds, flush-View, length-flush,
}
use gapbs_bfs_experiment.Graph.{Graph, out_neigh, Edge, IsValid}
use gapbs_bfs_experiment.Bfs.Parent.{
  parent_at, visited, unvisited, unvisited-set, visited-lt, compare_and_swap_lem,
}
use gapbs_bfs_experiment.Bfs.Level.{Level}
use gapbs_bfs_experiment.Bfs.TopDown.{Scout, claim, td_visit, td_expand, td_step}

abbrev pub Grows : Scout → Scout → Type 0
Grows s t = (w : ℕ) → visited s.parent w ≡ true → visited t.parent w ≡ true

module _ (g : Graph) (before : List ℤ) (seen shown : List ℕ) (slots : ℕ)
    (room : length seen + length shown + unvisited before ≤ slots) where
  pub record Scouted (s : Scout) : Type 0 where
    pub added : List ℕ
    pub same : length s.parent ≡ length before
    pub kept : (v : ℕ) → visited before v ≡ true → parent_at s.parent v ≡ parent_at before v
    pub fresh :
        (v : ℕ)
        → visited before v ≡ false
        → visited s.parent v ≡ true
        → (u : ℕ) × (parent_at s.parent v ≡ pos u) × (elem u shown ≡ true) × Edge g u v
    pub news : (v : ℕ) → elem v added ≡ (visited s.parent v && not (visited before v))
    pub holds : Holds (s.queue, s.lqueue) seen shown added
    pub wide : length s.queue.shared ≡ slots
    pub count : length added + unvisited s.parent ≡ unvisited before

  -- The effect of one step of the inner loop.
  record Visits (s : Scout) (vs : ℕ → Bool) (t : Scout) : Type 0 where
    good : Scouted t
    done : (v : ℕ) → vs v ≡ true → visited t.parent v ≡ true
    grows : Grows s t

  module _ {s : Scout} (w : Scouted s) (u v : ℕ) (from : elem u shown ≡ true) (edge : Edge g u v)
      (inside : v < length before) where
    Scouted-claim :
        (curr : ℤ)
        → visited s.parent v ≡ false
        → Visits s (λ x. v == x) (claim v curr (record s { parent = set s.parent v (pos u) }))
    unfolding claim
    Scouted-claim curr new =
        let look = λ (x : ℕ). get_or-set s.parent v x (pos u) minus_one in
        let here : v < length s.parent = omega (arith, w.same) in
        let fewer = unvisited-set s.parent v u here (ground arith) in
        record {
          good = record {
            added = w.added ++ v ∷ [];
            same = omega (arith, w.same, length-set s.parent v (pos u));
            kept = λ x h. ground (arith, w.kept x, look x);
            fresh = λ x h m. elim (Bool-cases (v == x)) [
              | inl e ↦ (u, ground (arith, look x), from, ground arith)
              | inr e ↦
                  let (p, entry, q, i) = w.fresh x h (ground (arith, look x)) in
                  (p, ground (arith, look x), q, i)
            ];
            news = λ x. ground (arith, w.news x, look x, w.kept x, elem-append x w.added (v ∷ []));
            holds = buffer_push-Holds v w.holds (omega (arith, w.wide, w.count));
            wide = length-buffer_push s.queue s.lqueue v ∙ w.wide;
            count = omega (arith, w.count, length-append w.added (v ∷ []));
          };
          done = λ x h. ground (arith, look x);
          grows = λ x h. ground (arith, look x);
        }

    Visits-td_visit : Visits s (λ x. v == x) (td_visit u s v)
    unfolding td_visit
    Visits-td_visit = elim (Bool-cases (is_neg (parent_at s.parent v))) [
      | inl new ↦
          rw (new, compare_and_swap_lem s.parent v (pos u))
            (Scouted-claim (parent_at s.parent v) (rw new))
      | inr old ↦ rw old (record { good = w; done = λ x h. ground arith; grows = λ x h. h })
    ]

  Visits-inner :
      (vs : List ℕ) (s : Scout) (u : ℕ)
      → Scouted s
      → elem u shown ≡ true
      → ((v : ℕ) → elem v vs ≡ true → Edge g u v)
      → AllLt (length before) vs
      → Visits s (λ v. elem v vs) (foldl (td_visit u) s vs)
  Visits-inner [] s u w from edges low = record { good = w; done = λ v h. cc; grows = λ v h. h }
  Visits-inner (v ∷ vs) s u w from edges low =
      let one = Visits-td_visit w u v from (edges v (ground arith)) low.0 in
      let rest =
        Visits-inner vs (td_visit u s v) u one.good from (λ x h. edges x (ground arith)) low.1 in
      record {
        good = rest.good;
        done = λ x h. ground (arith, rest.done x, rest.grows x, one.done x);
        grows = λ x h. rest.grows x (one.grows x h);
      }

  pub Visits-outer :
      (us : List ℕ) (s : Scout)
      → Scouted s
      → ((u : ℕ) → elem u us ≡ true → elem u shown ≡ true)
      → ((u : ℕ) → elem u us ≡ true → AllLt (length before) (out_neigh g u 0))
      → Scouted (foldl (td_expand g) s us)
        × ((u v : ℕ)
            → elem u us ≡ true
            → Edge g u v
            → visited (foldl (td_expand g) s us).parent v ≡ true)
        × Grows s (foldl (td_expand g) s us)
  Visits-outer [] s w sub low = (w, λ u v h. cc, λ v h. h)
  Visits-outer (u ∷ us) s w sub low =
      let one : Visits s (λ v. elem v (out_neigh g u 0)) (td_expand g s u) =
        unfold td_expand in
        Visits-inner (out_neigh g u 0) s u w (sub u (ground arith)) (λ v h. h)
          (low u (ground arith)) in
      let (good, done, grows) =
        Visits-outer us (td_expand g s u) one.good (λ x h. sub x (ground arith))
          (λ x h. low x (ground arith)) in
      (
        good,
        λ x v h edge. elim (Bool-cases (x == u)) [
          | inl e ↦ grows v (one.done v (ground arith))
          | inr e ↦ done x v (ground arith) edge
        ],
        λ v h. grows v (one.grows v h),
      )

-- One top-down step follows every edge out of the window and no other edge, and appends the vertices
-- that it visits to the queue, each once, without running past the end of the array: one thread, with
-- a buffer of any positive size.
pub td_step-Level :
    (g : Graph) (local_size : ℕ) (before : List ℤ) (queue : SlidingQueue ℕ) (seen shown : List ℕ)
    → IsValid g
    → length before ≡ g.num_nodes
    → 0 < local_size
    → View queue seen shown []
    → length seen + length shown + unvisited before ≤ length queue.shared
    → ((u : ℕ) → elem u shown ≡ true → visited before u ≡ true)
    → let (after, queue', scout_count) = td_step g local_size before queue in
      (added : List ℕ) × Level g before after (λ u. elem u shown) (λ v. elem v added)
      × View queue' seen shown added
      × (length added + unvisited after ≡ unvisited before)
      × (length queue'.shared ≡ length queue.shared)
unfolding td_step
td_step-Level g local_size before queue seen shown valid size pos_size view room stale =
    let low : (u : ℕ) → elem u shown ≡ true → AllLt (length before) (out_neigh g u 0) =
      λ u h. rw size (valid.targets u (omega (arith, visited-lt before u (stale u h)))) in
    let start : Scout = record {
      parent = before;
      queue = queue;
      lqueue = create_buffer 0 local_size;
      scout_count = pos 0;
    } in
    let first : Scouted g before seen shown (length queue.shared) room start = record {
      added = [];
      same = refl;
      kept = λ v h. refl;
      fresh = λ v h m. cc;
      news = λ v. ground arith;
      holds = create_buffer-Holds 0 local_size pos_size view;
      wide = refl;
      count = omega arith;
    } in
    let (good, done, grows) =
      Visits-outer g before seen shown (length queue.shared) room shown start first (λ u h. h)
        low in
    rw (window-View view) (
      good.added,
      record {
        size = good.same;
        kept = good.kept;
        fresh = good.fresh;
        full = done;
        news = good.news;
      },
      flush-View good.holds (omega (arith, good.wide, good.count)),
      good.count,
      length-flush _ _ ∙ good.wide,
    )
