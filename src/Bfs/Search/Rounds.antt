-- ===== src/Bfs/Search/Rounds.antt =====
-- The while loop of DOBFS (src/bfs.cc): what a round keeps, and that it ends.
use gapbs_bfs_experiment.Base.{
  ℕ, zero, suc, ◌+◌, ◌≤◌, ◌<◌, min, ◌≡◌, refl, subst, ◌∙◌, arith, Bool, true, false, ◌||◌, some,
  List, [], ◌∷◌, ◌++◌, length, elem, range, elem-range, length-append, AllLt, if◌then◌else◌, inl,
  inr, Bool-cases, ℤ, ltb_ℤ, quot,
}
use mathlib.Core.Path.{fun_ext}
use gapbs_bfs_experiment.Bitmap.{get_bit}
use gapbs_bfs_experiment.Bitmap.Bits
use gapbs_bfs_experiment.SlidingQueue.{slide_window, size, empty}
use gapbs_bfs_experiment.SlidingQueue.Window.{View, slide_window-View, size-View, empty-View}
use gapbs_bfs_experiment.Graph.{Graph, IsValid}
use gapbs_bfs_experiment.Bfs.Parent.{visited, unvisited, unvisited-le-length, visited-lt}
use gapbs_bfs_experiment.Bfs.Tree.{Tree, Tree-Level}
use gapbs_bfs_experiment.Bfs.TopDown.Scan.{td_step-Level}
use gapbs_bfs_experiment.Bfs.Convert.{
  queue_to_bitmap, bitmap_to_queue, selected, elem-selected, get_bit-queue_to_bitmap,
  size-queue_to_bitmap, bitmap_to_queue-View, length-bitmap_to_queue,
}
use gapbs_bfs_experiment.Bfs.Search.{
  Tuning, Search, Phase, bottom_up, top_down, search_round, search_loop, enter_phase, leave_phase,
}
use gapbs_bfs_experiment.Bfs.Search.Phases.{IsSound, InPhase, PhaseEnd, bu_phase_ends}

module _ (g : Graph) (o : Tuning) (valid : IsValid g) (sound : IsSound o) (source : ℕ) where
  -- The state at the head of the while loop: `seen` left the queue, `shown` is the frontier.
  pub record Inv (s : Search) (seen shown : List ℕ) (level : ℕ) (depth : ℕ → ℕ) : Type 0 where
    pub tree : Tree g source s.parent (λ u. elem u shown) level depth
    pub nodes : length s.parent ≡ g.num_nodes
    pub view : View s.queue seen shown []
    pub slots : length s.queue.shared ≡ g.num_nodes
    pub room : length seen + length shown + unvisited s.parent ≤ g.num_nodes
    pub front_bits : g.num_nodes ≤ Bits.size s.front
    pub curr_bits : g.num_nodes ≤ Bits.size s.curr
    pub stale : (u : ℕ) → get_bit s.front u ≡ true → visited s.parent u ≡ true

  -- The next head: every vertex of its frontier was unvisited before.
  pub record Next (before s : Search) : Type 0 where
    pub seen : List ℕ
    pub shown : List ℕ
    pub level : ℕ
    pub depth : ℕ → ℕ
    pub inv : Inv s seen shown level depth
    pub fewer : length shown + unvisited s.parent ≤ unvisited before.parent

  top_down-Next :
      (s : Search) (seen shown : List ℕ) (level : ℕ) (depth : ℕ → ℕ)
      → Inv s seen shown level depth
      → Next s (top_down g o s)
  unfolding top_down
  top_down-Next s seen shown level depth i =
      let front = λ (u : ℕ) (h : elem u shown ≡ true). (i.tree.rim u h).0 in
      let (added, l, view, count, slots) =
        td_step-Level g o.local_size s.parent s.queue seen shown valid i.nodes sound.buffered i.view
          (omega (arith, i.room, i.slots)) front in
      record {
        seen = seen ++ shown;
        shown = added;
        level = suc level;
        depth = λ v. if visited s.parent v then depth v else suc level;
        inv = record {
          tree = Tree-Level i.tree (record { all = λ u h. h; stale = front }) l;
          nodes = l.size ∙ i.nodes;
          view = slide_window-View view;
          slots = unfold slide_window in slots ∙ i.slots;
          room = omega (arith, i.room, count, length-append seen shown);
          front_bits = i.front_bits;
          curr_bits = i.curr_bits;
          stale = λ u h. ground (arith, i.stale u h, l.kept u (i.stale u h));
        };
        fewer = omega (arith, count);
      }

  Tree-front :
      {parent : List ℤ} {f h : ℕ → Bool} {level : ℕ} {depth : ℕ → ℕ}
      → ((v : ℕ) → f v ≡ h v)
      → Tree g source parent f level depth
      → Tree g source parent h level depth
  Tree-front {parent} {f} {h} {level} {depth} e t =
      subst (λ k. Tree g source parent k level depth) (fun_ext e) t

  rim-AllLt : (us : List ℕ) (n : ℕ) → ((u : ℕ) → elem u us ≡ true → u < n) → AllLt n us
  rim-AllLt [] n h = tt
  rim-AllLt (u ∷ us) n h = (h u (ground arith), rim-AllLt us n (λ v m. h v (ground arith)))

  module _ (s : Search) (seen shown : List ℕ) {level : ℕ} {depth : ℕ → ℕ}
      (i : Inv s seen shown level depth) where
    enter_bits :
        (v : ℕ) → get_bit (queue_to_bitmap s.queue s.front) v ≡ (elem v shown || get_bit s.front v)
    enter_bits v = get_bit-queue_to_bitmap s.queue s.front seen shown [] v i.view (
        rim-AllLt shown (Bits.size s.front)
          (λ u h. omega (arith, visited-lt s.parent u (i.tree.rim u h).0, i.nodes, i.front_bits)))

    -- The front now holds the frontier, and visited vertices that an earlier phase left there.
    enter_phase-InPhase :
        InPhase g o valid sound source (enter_phase g o s) (λ u. elem u shown) level depth
    unfolding enter_phase
    enter_phase-InPhase = record {
      tree = i.tree;
      covers = record {
        all = λ u h. ground (arith, enter_bits u);
        stale = λ u h. ground (arith, enter_bits u, i.stale u, i.tree.rim u);
      };
      nodes = i.nodes;
      front_bits = omega (arith, i.front_bits, size-queue_to_bitmap s.queue s.front);
      curr_bits = i.curr_bits;
    }

    module _ {q : Phase} (end : PhaseEnd g o valid sound source (enter_phase g o s) q) where
      abbrev lit : List ℕ
      lit = selected (get_bit q.front) (range 0 g.num_nodes)

      elem-lit : (v : ℕ) → get_bit q.front v ≡ elem v lit
      elem-lit v = ground (
        arith,
        elem-selected (get_bit q.front) (range 0 g.num_nodes) v,
        elem-range v 0 g.num_nodes,
        end.tree.rim v,
        visited-lt q.parent v,
        end.nodes,
      )

      leave-View :
          View
            (bitmap_to_queue g o.local_size q.front (slide_window s.queue))
            ((seen ++ shown) ++ [])
            lit
            []
      unfolding slide_window enter_phase
      leave-View =
          bitmap_to_queue-View g o.local_size q.front (slide_window s.queue) (seen ++ shown) [] []
            sound.buffered (slide_window-View i.view)
            (omega (arith, end.count, i.room, i.slots, length-append seen shown))

      leave_phase-Next : Next s (leave_phase g o s q)
      unfolding leave_phase slide_window enter_phase
      leave_phase-Next = record {
        seen = (seen ++ shown) ++ [];
        shown = lit;
        level = end.level;
        depth = end.depth;
        inv = record {
          tree = Tree-front elem-lit end.tree;
          nodes = end.nodes;
          view = leave-View;
          slots = length-bitmap_to_queue g o.local_size q.front (slide_window s.queue) ∙ i.slots;
          room = omega (
            arith,
            end.count,
            i.room,
            length-append (seen ++ shown) [],
            length-append seen shown,
          );
          front_bits = end.front_bits;
          curr_bits = end.curr_bits;
          stale = λ u h. (end.tree.rim u h).0;
        };
        fewer = end.count;
      }

    bottom_up-Next : 0 < length shown → (t : Search) × (bottom_up g o s ≡ some t) × Next s t
    bottom_up-Next busy =
        let (q, e, end) =
          bu_phase_ends g o valid sound source (suc g.num_nodes) 0 (size s.queue)
            (enter_phase g o s) (λ u. elem u shown) level depth enter_phase-InPhase
            (omega (arith, size-View i.view)) all_fit in
        (leave_phase g o s q, unfold bottom_up in rw (e, bottom_up), leave_phase-Next end)
      where
        all_fit : unvisited (enter_phase g o s).parent < suc g.num_nodes
        all_fit = unfold enter_phase in omega (arith, i.nodes, unvisited-le-length s.parent)

    search_round-Next : 0 < length shown → (t : Search) × (search_round g o s ≡ some t) × Next s t
    search_round-Next busy =
        elim (Bool-cases (ltb_ℤ (quot s.edges_to_check o.alpha) s.scout_count)) [
          | inl up ↦
              let (t, e, next) = bottom_up-Next busy in
              (t, unfold search_round in rw (up, e, search_round), next)
          | inr down ↦ (
            top_down g o s,
            unfold search_round in rw (down, search_round),
            top_down-Next s seen shown level depth i,
          )
        ]

  search_loop_next :
      (fuel : ℕ) (s t : Search)
      → empty s.queue ≡ false
      → search_round g o s ≡ some t
      → search_loop g o (suc fuel) s ≡ search_loop g o fuel t
  unfolding search_loop
  search_loop_next fuel s t busy e = rw (busy, e) refl

  -- The while loop ends, with an empty frontier.
  pub search_loop_ends :
      (fuel : ℕ) (s : Search) (seen shown : List ℕ) (level : ℕ) (depth : ℕ → ℕ)
      → Inv s seen shown level depth
      → min 1 (length shown) + unvisited s.parent < fuel
      → (t : Search) × (search_loop g o fuel s ≡ some t)
        × ((seen' : List ℕ) × (level' : ℕ) × (depth' : ℕ → ℕ) × Inv t seen' [] level' depth')
  search_loop_ends zero s seen shown level depth i m = elim m [ ]
  search_loop_ends (suc fuel) s seen [] level depth i m =
      (s, unfold search_loop in rw (empty-View i.view), (seen, level, depth, i))
  search_loop_ends (suc fuel) s seen (u ∷ shown) level depth i m =
      let (t, e, next) = search_round-Next s seen (u ∷ shown) i (omega arith) in
      let (r, er, rest) =
        search_loop_ends fuel t next.seen next.shown next.level next.depth next.inv
          (omega (arith, next.fewer)) in
      (r, search_loop_next fuel s t (empty-View i.view ∙ ground arith) e ∙ er, rest)
