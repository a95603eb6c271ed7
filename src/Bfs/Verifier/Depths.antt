-- ===== src/Bfs/Verifier/Depths.antt =====
-- The serial search of BFSVerifier (src/bfs.cc) finds the lengths of shortest walks.
use gapbs_bfs_experiment.Base.{
  ℕ, ◌≤◌, ◌<◌, ◌≡◌, refl, subst, ◌∙◌, arith, true, false, some, List, [], ◌∷◌, length, set,
  replicate, length-set, length-replicate, get_or-set, get_or-replicate, if◌then◌else◌, ◌==◌, ℤ,
  pos, minus_one, is_neg,
}
use gapbs_bfs_experiment.Graph.{Graph, IsValid}
use gapbs_bfs_experiment.Bfs.Parent.{unvisited, unvisited-set, unvisited-le-length}
use gapbs_bfs_experiment.Bfs.Search.Correct.{Walk, here, step}
use gapbs_bfs_experiment.Bfs.Verifier.{depth_at, depths_from}
use gapbs_bfs_experiment.Bfs.Verifier.SearchLoop.{Found, depth_loop-Found}

-- The entries are the lengths of shortest walks from the source, and -1 where there is no walk.
pub record IsDistances (g : Graph) (source : ℕ) (depth : List ℤ) : Type 0 where
  pub size : length depth ≡ g.num_nodes
  pub marks : (v : ℕ) → is_neg (depth_at depth v) ≡ true → depth_at depth v ≡ minus_one
  pub reached : (v k : ℕ) → depth_at depth v ≡ pos k → Walk g source v k
  pub shortest : (v k : ℕ) → Walk g source v k → (j : ℕ) × (depth_at depth v ≡ pos j) × (j ≤ k)

module _ (g : Graph) (source : ℕ) (valid : IsValid g) (inside : source < g.num_nodes) where
  abbrev blank : List ℤ
  blank = replicate g.num_nodes minus_one

  first_depth :
      (v : ℕ) → depth_at (set blank source (pos 0)) v ≡ (if source == v then pos 0 else minus_one)
  first_depth v = ground (
    arith,
    get_or-set blank source v (pos 0) minus_one,
    length-replicate g.num_nodes minus_one,
    get_or-replicate g.num_nodes v minus_one,
  )

  start-Found :
      Found g source 0
        (λ w. false)
        (record { depth = set blank source (pos 0); to_visit = source ∷ [] })
  start-Found = record {
    size = length-set blank source (pos 0) ∙ length-replicate g.num_nodes minus_one;
    marks = λ v h. ground (arith, first_depth v);
    root = ground (arith, first_depth source);
    reached = λ v k h.
        let same : source ≡ v = ground (arith, first_depth v) in
        let none_up : 0 ≡ k = ground (arith, first_depth v) in
        subst (λ x. Walk g source x k) same (subst (λ n. Walk g source source n) none_up here);
    high = λ v k h. ground (arith, first_depth v);
    queue = (0, ground (arith, first_depth source), omega arith, tt);
    closed = λ u v k h out hole edge. absurd (ground (arith, first_depth u));
  }

  unvisited-blank : unvisited (set blank source (pos 0)) < g.num_nodes
  unvisited-blank = omega (
    arith,
    length-replicate g.num_nodes minus_one,
    unvisited-le-length blank,
    unvisited-set blank source 0 (omega (arith, length-replicate g.num_nodes minus_one))
        (rw (get_or-replicate g.num_nodes source minus_one) refl),
  )

  Walk-depth :
      {depth : List ℤ} {d : ℕ}
      → Found g source d (λ w. false) (record { depth = depth; to_visit = [] })
      → (v k : ℕ) → Walk g source v k
      → (j : ℕ) × (depth_at depth v ≡ pos j) × (j ≤ k)
  Walk-depth f v k here = (0, f.root, omega arith)
  Walk-depth f v k (step {u} {k = i} p edge) =
      let (j, there, near) = Walk-depth f u i p in
      let (j', found, below) = f.closed u v j there refl refl edge in (j', found, omega arith)

  -- The search of the verifier ends and finds the lengths of shortest walks.
  pub depths_from_lem :
      (depth : List ℤ) × (depths_from g source ≡ some depth) × IsDistances g source depth
  depths_from_lem =
      let (depth, e, (d, f)) =
        depth_loop-Found g source valid g.num_nodes 0 (set blank source (pos 0)) (source ∷ [])
          start-Found (omega (arith, unvisited-blank)) in
      (
        depth,
        unfold depths_from in e,
        record { size = f.size; marks = f.marks; reached = f.reached; shortest = Walk-depth f },
      )
