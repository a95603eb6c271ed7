-- ===== src/Bfs/Tree.antt =====
-- The tree that the parent array of src/bfs.cc holds while the search goes on.
use gapbs_bfs_experiment.Base.{
  ℕ, suc, ◌≤◌, ◌≡◌, ◌≢◌, ◌∙◌, arith, Bool, true, false, List, inl, inr, Bool-cases, if◌then◌else◌,
  ℤ, pos,
}
use gapbs_bfs_experiment.Graph.{Graph, Edge}
use gapbs_bfs_experiment.Bfs.Parent.{parent_at, visited}
use gapbs_bfs_experiment.Bfs.Level.{Level}

-- A link of the tree: the parent is visited, one level nearer, and has an edge to the vertex.
pub record Link (g : Graph) (parent : List ℤ) (depth : ℕ → ℕ) (v : ℕ) : Type 0 where
  pub from : ℕ
  pub entry : parent_at parent v ≡ pos from
  pub known : visited parent from ≡ true
  pub edge : Edge g from v
  pub below : depth v ≡ suc (depth from)

-- The search has visited the vertices up to `level`, and those on the frontier are the ones there
-- whose edges it has not followed.
pub record Tree (g : Graph) (source : ℕ) (parent : List ℤ) (frontier : ℕ → Bool) (level : ℕ)
    (depth : ℕ → ℕ) : Type 0 where
  pub root : parent_at parent source ≡ pos source
  pub top : depth source ≡ 0
  pub link : (v : ℕ) → visited parent v ≡ true → v ≢ source → Link g parent depth v
  pub near : (v : ℕ) → visited parent v ≡ true → depth v ≤ level
  pub rim : (u : ℕ) → frontier u ≡ true → (visited parent u ≡ true) × (depth u ≡ level)
  pub closed :
      (u v : ℕ)
      → visited parent u ≡ true
      → frontier u ≡ false
      → Edge g u v
      → (visited parent v ≡ true) × (depth v ≤ suc (depth u))

-- A superset of the frontier that adds visited vertices only.
pub record Covers (parent : List ℤ) (frontier front : ℕ → Bool) : Type 0 where
  pub all : (u : ℕ) → frontier u ≡ true → front u ≡ true
  pub stale : (u : ℕ) → front u ≡ true → visited parent u ≡ true

module _ {g : Graph} {source : ℕ} {before after : List ℤ} {frontier front next : ℕ → Bool}
    {level : ℕ} {depth : ℕ → ℕ} (t : Tree g source before frontier level depth)
    (c : Covers before frontier front) (l : Level g before after front next) where
  abbrev deeper : ℕ → ℕ
  deeper v = if visited before v then depth v else suc level

  still : (v : ℕ) → visited before v ≡ true → visited after v ≡ true
  still v h = ground (arith, l.kept v h)

  Tree-Link : (v : ℕ) → visited after v ≡ true → v ≢ source → Link g after deeper v
  Tree-Link v h away = elim (Bool-cases (visited before v)) [
    | inl old ↦
        let k = t.link v old away in
        record {
          from = k.from;
          entry = l.kept v old ∙ k.entry;
          known = still k.from k.known;
          edge = k.edge;
          below = rw (old, k.known) k.below;
        }
    | inr new ↦
        let (u, entry, here, edge) = l.fresh v new h in
        record {
          from = u;
          entry = entry;
          known = still u (c.stale u here);
          edge = edge;
          below = elim (Bool-cases (frontier u)) [
            | inl rim ↦ rw (new, c.stale u here, (t.rim u rim).1)
            | inr inner ↦ absurd (ground (arith, t.closed u v (c.stale u here) inner edge))
          ];
        }
  ]

  Tree-closed :
      (u v : ℕ)
      → visited after u ≡ true
      → next u ≡ false
      → Edge g u v
      → (visited after v ≡ true) × (deeper v ≤ suc (deeper u))
  Tree-closed u v h quiet edge =
      let old : visited before u ≡ true = ground (arith, l.news u) in
      elim (Bool-cases (frontier u)) [
        | inl rim ↦ (l.full u v (c.all u rim) edge, ground (arith, t.rim u rim, t.near v))
        | inr inner ↦
            let (there, near) = t.closed u v old inner edge in (still v there, rw (old, there) near)
      ]

  -- A step from a cover of the frontier takes the tree to the next level.
  pub Tree-Level : Tree g source after next (suc level) deeper
  Tree-Level = record {
    root = l.kept source (ground (arith, t.root)) ∙ t.root;
    top = ground (arith, t.root, t.top);
    link = Tree-Link;
    near = λ v h. ground (arith, t.near v);
    rim = λ u h. ground (arith, l.news u);
    closed = Tree-closed;
  }
