-- ===== src/Bfs/Search/Correct.antt =====
-- The result of DOBFS (src/bfs.cc) against walks in the graph.
use gapbs_bfs_experiment.Base.{
  ℕ, zero, suc, ◌≤◌, ◌<◌, ◌≡◌, ◌≢◌, refl, sym, ap, subst, ◌∙◌, arith, true, false, some, List, [],
  ◌∷◌, length, set, elem, replicate, length-set, length-replicate, get_or-set, ◌==◌, ==→eq, ℤ, pos,
  minus_one, ℕ_discrete,
}
use gapbs_bfs_experiment.Bitmap.{alloc}
use gapbs_bfs_experiment.Bitmap.Bits.{get_bit-reset, size-reset, size-alloc}
use gapbs_bfs_experiment.SlidingQueue
use gapbs_bfs_experiment.SlidingQueue.{create, push_back, slide_window}
use gapbs_bfs_experiment.SlidingQueue.Window.{View, create-View, push_back-View, slide_window-View}
use gapbs_bfs_experiment.Graph.{Graph, Edge, IsValid}
use gapbs_bfs_experiment.Bfs.Parent.{
  parent_at, visited, unvisited-set, unvisited-le-length, visited-init_parent, visited-set,
  length-init_parent, init_parent, cleanup, cleanup_lem, length-cleanup,
}
use gapbs_bfs_experiment.Bfs.Tree.{Tree, Link}
use gapbs_bfs_experiment.Bfs.Search.{Tuning, start, dobfs}
use gapbs_bfs_experiment.Bfs.Search.Phases.{IsSound}
use gapbs_bfs_experiment.Bfs.Search.Rounds.{Inv, search_loop_ends}

-- A walk of a given number of edges.
pub data Walk (g : Graph) (source : ℕ) : ℕ → ℕ → Type 0 where
  here : Walk g source source 0
  step : {u v k : ℕ} → Walk g source u k → Edge g u v → Walk g source v (suc k)

module _ (g : Graph) (o : Tuning) (valid : IsValid g) (sound : IsSound o) (source : ℕ)
    (inside : source < g.num_nodes) where
  abbrev begun : List ℤ
  begun = set (init_parent g) source (pos source)

  fits : source < length (init_parent g)
  fits = omega (arith, length-init_parent g)

  only_source : (v : ℕ) → visited begun v ≡ (source == v)
  only_source v =
      ground
        (arith, visited-set (init_parent g) source source v fits, visited-init_parent g valid v)

  start-Tree : Tree g source begun (λ u. elem u (source ∷ [])) 0 (λ _. 0)
  start-Tree = record {
    root = ground (arith, get_or-set (init_parent g) source source (pos source) minus_one fits);
    top = refl;
    link = λ v h away. absurd (away (sym (==→eq source v (sym (only_source v) ∙ h))));
    near = λ v h. omega arith;
    rim = λ u h. (ground (arith, only_source u), refl);
    closed = λ u v h quiet edge. absurd (ground (arith, only_source u));
  }

  start-View : View (start g o source).queue [] (source ∷ []) []
  unfolding start
  start-View = slide_window-View (
      push_back-View source (create-View 0 g.num_nodes)
        (unfold create SlidingQueue.reset in omega (arith, length-replicate g.num_nodes zero)))

  start-Inv : Inv g o valid sound source (start g o source) [] (source ∷ []) 0 (λ _. 0)
  unfolding start
  start-Inv = record {
    tree = start-Tree;
    nodes = length-set (init_parent g) source (pos source) ∙ length-init_parent g;
    view = unfold start in start-View;
    slots =
        unfold slide_window push_back create SlidingQueue.reset in
        length-set (replicate g.num_nodes zero) 0 source ∙ length-replicate g.num_nodes zero;
    room = omega (
      arith,
      unvisited-set (init_parent g) source source fits
          (ground (arith, visited-init_parent g valid source)),
      unvisited-le-length (init_parent g),
      length-init_parent g,
    );
    front_bits = omega (arith, size-alloc 0 g.num_nodes, size-reset (alloc 0 g.num_nodes));
    curr_bits = omega (arith, size-alloc 0 g.num_nodes, size-reset (alloc 0 g.num_nodes));
    stale = λ u h. ground (arith, get_bit-reset (alloc 0 g.num_nodes) u);
  }

-- A breadth-first tree: its depths are the lengths of shortest walks, every vertex that a walk
-- reaches is in it under a neighbour one step nearer, and all other entries are -1.
pub record IsBfsTree (g : Graph) (source : ℕ) (parent : List ℤ) : Type 0 where
  pub size : length parent ≡ g.num_nodes
  pub root : parent_at parent source ≡ pos source
  pub depth : ℕ → ℕ
  pub reached : (v : ℕ) → visited parent v ≡ true → Walk g source v (depth v)
  pub shortest : (v k : ℕ) → Walk g source v k → (visited parent v ≡ true) × (depth v ≤ k)
  pub link : (v : ℕ) → visited parent v ≡ true → v ≢ source → Link g parent depth v
  pub unreached : (v : ℕ) → visited parent v ≡ false → parent_at parent v ≡ minus_one

module _ {g : Graph} {source : ℕ} {parent : List ℤ} {level : ℕ} {depth : ℕ → ℕ}
    (t : Tree g source parent (λ u. elem u []) level depth) where
  Walk-up : (d v : ℕ) → depth v ≡ d → visited parent v ≡ true → Walk g source v d
  Walk-up zero v e h = elim (ℕ_discrete v source) [
    | yes same ↦ subst (λ w. Walk g source w 0) (sym same) here
    | no away ↦ absurd (omega (arith, (t.link v h away).below))
  ]
  Walk-up (suc d) v e h = elim (ℕ_discrete v source) [
    | yes same ↦ absurd (omega (arith, t.top, ap depth same))
    | no away ↦
        let k = t.link v h away in step (Walk-up d k.from (omega (arith, k.below)) k.known) k.edge
  ]

  Walk-down : (v k : ℕ) → Walk g source v k → (visited parent v ≡ true) × (depth v ≤ k)
  Walk-down v k here = (ground (arith, t.root), omega (arith, t.top))
  Walk-down v k (step {u} {k = j} p edge) =
      let (there, near) = Walk-down u j p in
      let (known, below) = t.closed u v there refl edge in (known, omega arith)

  -- The last sweep changes no entry of the tree.
  cleaned_visited : (v : ℕ) → visited (cleanup parent) v ≡ visited parent v
  cleaned_visited v = ground (arith, cleanup_lem parent v)

  cleaned-Link :
      (v : ℕ) → Link g parent depth v → visited parent v ≡ true → Link g (cleanup parent) depth v
  cleaned-Link v k h = record {
    from = k.from;
    entry = ground (arith, cleanup_lem parent v, k.entry);
    known = cleaned_visited k.from ∙ k.known;
    edge = k.edge;
    below = k.below;
  }

  cleaned-IsBfsTree : length parent ≡ g.num_nodes → IsBfsTree g source (cleanup parent)
  cleaned-IsBfsTree nodes = record {
    size = length-cleanup parent ∙ nodes;
    root = ground (arith, cleanup_lem parent source, t.root);
    depth = depth;
    reached = λ v h. Walk-up (depth v) v refl (sym (cleaned_visited v) ∙ h);
    shortest = λ v k w. let (known, near) = Walk-down v k w in (cleaned_visited v ∙ known, near);
    link =
        λ v h away. let old = sym (cleaned_visited v) ∙ h in cleaned-Link v (t.link v old away) old;
    unreached = λ v h. ground (arith, cleanup_lem parent v);
  }

-- From any vertex of a valid graph, for every alpha but 0, every limit of bottom-up rounds and every
-- positive beta and buffer size, the search ends and its parent array is a breadth-first tree of the vertices that walks from
-- the source reach.
pub dobfs_lem :
    (g : Graph) (o : Tuning) (source : ℕ)
    → IsValid g
    → IsSound o
    → source < g.num_nodes
    → (parent : List ℤ) × (dobfs g o source ≡ some parent) × IsBfsTree g source parent
dobfs_lem g o source valid sound inside =
    let i = start-Inv g o valid sound source inside in
    let (s, e, (seen, level, depth, final)) =
      search_loop_ends g o valid sound source (suc (suc g.num_nodes)) (start g o source) []
        (source ∷ []) 0 (λ _. 0) i
        (omega (arith, i.nodes, unvisited-le-length (start g o source).parent)) in
    (cleanup s.parent, unfold dobfs in rw (e, dobfs), cleaned-IsBfsTree final.tree final.nodes)
