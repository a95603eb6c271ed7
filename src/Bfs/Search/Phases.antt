-- ===== src/Bfs/Search/Phases.antt =====
-- The inner loop of DOBFS (src/bfs.cc): what bottom-up steps keep, and that it ends.
use gapbs_bfs_experiment.Base.{
  ℕ, zero, suc, ◌+◌, ◌≤◌, ◌<◌, ◌≡◌, subst, ◌∙◌, arith, Bool, true, ◌&&◌, ◌||◌, some, length, range,
  if◌then◌else◌, leb, inl, inr, Bool-cases, ℤ, pos, negsuc, ltb_ℤ, eq_ℤ, quot,
}
use Prim.Native.Nat.add
use gapbs_bfs_experiment.Bitmap.{get_bit}
use gapbs_bfs_experiment.Bitmap.Bits
use gapbs_bfs_experiment.Graph.{Graph, IsValid}
use gapbs_bfs_experiment.Bfs.Parent.{visited, unvisited}
use gapbs_bfs_experiment.Bfs.Level.{Level}
use gapbs_bfs_experiment.Bfs.Tree.{Tree, Covers, Tree-Level}
use gapbs_bfs_experiment.Bfs.BottomUp.{bu_step}
use gapbs_bfs_experiment.Bfs.BottomUp.Scan.{bu_step-Level}
use gapbs_bfs_experiment.Bfs.Convert.{selected}
use gapbs_bfs_experiment.Bfs.Search.{Tuning, Phase, again, bu_phase}
use gapbs_bfs_experiment.Bfs.Search.Count.{length-selected-news}

-- A step of the heuristic is well defined and its loop ends.
abbrev pub IsPositive : ℤ → Type 0
IsPositive (pos n) = 0 < n
IsPositive (negsuc n) = ⊥

abbrev pub IsNonzero : ℤ → Type 0
IsNonzero (pos n) = 0 < n
IsNonzero (negsuc n) = Unit {0}

-- The source divides by alpha and by beta.
pub record IsSound (o : Tuning) : Type 0 where
  pub alpha_nonzero : IsNonzero o.alpha
  pub beta_positive : IsPositive o.beta
  pub buffered : 0 < o.local_size

module _ (g : Graph) (o : Tuning) (valid : IsValid g) (sound : IsSound o) (source : ℕ) where
  -- The do-while loop between two steps; `awake` vertices were found by the last one.
  pub record InPhase (p : Phase) (frontier : ℕ → Bool) (level : ℕ) (depth : ℕ → ℕ) : Type 0 where
    pub tree : Tree g source p.parent frontier level depth
    pub covers : Covers p.parent frontier (get_bit p.front)
    pub nodes : length p.parent ≡ g.num_nodes
    pub front_bits : g.num_nodes ≤ Bits.size p.front
    pub curr_bits : g.num_nodes ≤ Bits.size p.curr

  again-awake : (iters awake old : ℕ) → 0 < old → again g o iters awake old ≡ true → 0 < awake
  unfolding again
  again-awake iters awake old h e = by_beta o.beta sound.beta_positive e
    where
      by_beta :
          (beta : ℤ)
          → IsPositive beta
          → ((eq_ℤ o.max_bu_iters (pos 0) || ltb_ℤ (pos iters) o.max_bu_iters)
              && (leb old awake || ltb_ℤ (quot (pos g.num_nodes) beta) (pos awake)))
            ≡ true
          → 0 < awake
      by_beta (pos b) hb e = ground arith
      by_beta (negsuc b) hb e = absurd hb

  -- What the do-while loop leaves behind.
  pub record PhaseEnd (p q : Phase) : Type 0 where
    pub level : ℕ
    pub depth : ℕ → ℕ
    pub tree : Tree g source q.parent (get_bit q.front) level depth
    pub nodes : length q.parent ≡ g.num_nodes
    pub front_bits : g.num_nodes ≤ Bits.size q.front
    pub curr_bits : g.num_nodes ≤ Bits.size q.curr
    pub count :
        length (selected (get_bit q.front) (range 0 g.num_nodes)) + unvisited q.parent
        ≤ unvisited p.parent

  module _ {p : Phase} {frontier : ℕ → Bool} {level : ℕ} {depth : ℕ → ℕ}
      (i : InPhase p frontier level depth) where
    abbrev after_step : Phase
    after_step =
        let s = bu_step g p.parent p.front p.curr in
        record { parent = s.parent; front = s.next; curr = p.front }

    step_facts :
        Level g p.parent after_step.parent (get_bit p.front) (get_bit after_step.front)
        × (g.num_nodes ≤ Bits.size after_step.front)
        × ((bu_step g p.parent p.front p.curr).awake_count + unvisited after_step.parent
            ≡ unvisited p.parent)
    step_facts = bu_step-Level g p.parent p.front p.curr valid i.nodes i.curr_bits i.covers.stale

    step-InPhase :
        InPhase after_step
          (get_bit after_step.front)
          (suc level)
          (λ v. if visited p.parent v then depth v else suc level)
    step-InPhase =
        let (l, bits, count) = step_facts in
        let t = Tree-Level i.tree i.covers l in
        record {
          tree = t;
          covers = record { all = λ u h. h; stale = λ u h. (t.rim u h).0 };
          nodes = l.size ∙ i.nodes;
          front_bits = bits;
          curr_bits = i.front_bits;
        }

    still_visited : (v : ℕ) → visited p.parent v ≡ true → visited after_step.parent v ≡ true
    still_visited v h = let (l, bits, count) = step_facts in ground (arith, l.kept v h)

    step_count :
        length (selected (get_bit after_step.front) (range 0 g.num_nodes))
          + unvisited after_step.parent
        ≡ unvisited p.parent
    step_count =
        let (l, bits, count) = step_facts in
        subst
          (λ n.
            length (selected (get_bit after_step.front) (range 0 n)) + unvisited after_step.parent
            ≡ unvisited p.parent)
          i.nodes
          (length-selected-news p.parent after_step.parent (get_bit after_step.front) 0 l.size
            (λ v. rw (add.zero v) (l.news v)) still_visited)

    step-PhaseEnd : PhaseEnd p after_step
    step-PhaseEnd =
        let n = step-InPhase in
        record {
          level = suc level;
          depth = λ v. if visited p.parent v then depth v else suc level;
          tree = n.tree;
          nodes = n.nodes;
          front_bits = n.front_bits;
          curr_bits = n.curr_bits;
          count = omega (arith, step_count);
        }

  pub bu_phase_ends :
      (fuel iters old : ℕ) (p : Phase) (frontier : ℕ → Bool) (level : ℕ) (depth : ℕ → ℕ)
      → InPhase p frontier level depth
      → 0 < old
      → unvisited p.parent < fuel
      → (q : Phase) × (bu_phase g o fuel iters old p ≡ some q) × PhaseEnd p q
  unfolding bu_phase
  bu_phase_ends zero iters old p frontier level depth i h m = elim m [ ]
  bu_phase_ends (suc fuel) iters old p frontier level depth i h m =
      let awake = (bu_step g p.parent p.front p.curr).awake_count in
      elim (Bool-cases (again g o (iters + 1) awake old)) [
        | inr stop ↦ (after_step i, rw stop, step-PhaseEnd i)
        | inl more ↦
            let pos_awake = again-awake (iters + 1) awake old h more in
            let (q, e, end) =
              bu_phase_ends fuel (iters + 1) awake (after_step i) _ _ _ (step-InPhase i) pos_awake
                (omega (arith, (step_facts i).2)) in
            (
              q,
              rw more e,
              record {
                level = end.level;
                depth = end.depth;
                tree = end.tree;
                nodes = end.nodes;
                front_bits = end.front_bits;
                curr_bits = end.curr_bits;
                count = omega (arith, end.count, (step_facts i).2);
              },
            )
      ]
