-- ===== src/Bfs/Verifier/SearchLoop.antt =====
-- The loop of the serial search of BFSVerifier (src/bfs.cc): what it keeps, and that it ends.
use gapbs_bfs_experiment.Base.{
  ℕ, zero, suc, ◌+◌, ◌≤◌, ◌<◌, ◌≡◌, refl, ap, subst, ◌∙◌, arith, Bool, true, false, not, some, List,
  [], ◌∷◌, ◌++◌, foldl, length, set, elem, length-set, length-append, elem-append, get_or-set,
  AllLt, inl, inr, Bool-cases, if◌then◌else◌, ◌==◌, ==→eq, ℤ, pos, negsuc, minus_one, is_neg, eq_ℤ,
  eq_ℤ→eq, ◌+ℤ◌,
}
use gapbs_bfs_experiment.Graph.{Graph, out_neigh, Edge, IsValid}
use gapbs_bfs_experiment.Bfs.Parent.{visited, unvisited, unvisited-set, visited-lt}
use gapbs_bfs_experiment.Bfs.Search.Correct.{Walk, step}
use gapbs_bfs_experiment.Bfs.Verifier.{Visits, depth_at, reach_vertex, depth_loop}

-- The vertices have depths that rise along the list, from `low` on.
abbrev pub Rising : List ℤ → ℕ → List ℕ → Type 0
Rising depth low [] = Unit {0}
Rising depth low (u ∷ us) = (k : ℕ) × (depth_at depth u ≡ pos k) × (low ≤ k) × Rising depth k us

Rising-mono :
    (before after : List ℤ)
    → ((v k : ℕ) → depth_at before v ≡ pos k → depth_at after v ≡ pos k)
    → (low : ℕ) (us : List ℕ) → Rising before low us
    → Rising after low us
Rising-mono before after keep low [] r = tt
Rising-mono before after keep low (u ∷ us) (k, e, h, r) =
    (k, keep u k e, h, Rising-mono before after keep k us r)

Rising-concat :
    (depth : List ℤ) (low top v : ℕ) (us : List ℕ)
    → ((u k : ℕ) → depth_at depth u ≡ pos k → k ≤ top)
    → low ≤ top
    → depth_at depth v ≡ pos top
    → Rising depth low us
    → Rising depth low (us ++ v ∷ [])
Rising-concat depth low top v [] high h e r = (top, e, h, tt)
Rising-concat depth low top v (u ∷ us) high h e (k, d, l, r) =
    (k, d, l, Rising-concat depth k top v us high (high u k d) e r)

module _ (g : Graph) (source : ℕ) where
  -- What holds while the edges of a vertex at depth `d` are followed; `hole` says of which vertices
  -- the edges need not have been followed.
  pub record Found (d : ℕ) (hole : ℕ → Bool) (s : Visits) : Type 0 where
    pub size : length s.depth ≡ g.num_nodes
    pub marks : (v : ℕ) → is_neg (depth_at s.depth v) ≡ true → depth_at s.depth v ≡ minus_one
    pub root : depth_at s.depth source ≡ pos 0
    pub reached : (v k : ℕ) → depth_at s.depth v ≡ pos k → Walk g source v k
    pub high : (v k : ℕ) → depth_at s.depth v ≡ pos k → k ≤ suc d
    pub queue : Rising s.depth d s.to_visit
    pub closed :
        (u v k : ℕ)
        → depth_at s.depth u ≡ pos k
        → elem u s.to_visit ≡ false
        → hole u ≡ false
        → Edge g u v
        → (j : ℕ) × (depth_at s.depth v ≡ pos j) × (j ≤ suc k)

  record Reached (d : ℕ) (hole vs : ℕ → Bool) (s t : Visits) : Type 0 where
    good : Found d hole t
    done : (v : ℕ) → vs v ≡ true → visited t.depth v ≡ true
    kept : (v k : ℕ) → depth_at s.depth v ≡ pos k → depth_at t.depth v ≡ pos k
    count : length t.to_visit + unvisited t.depth ≡ length s.to_visit + unvisited s.depth

  module _ (d u v : ℕ) (s : Visits) (f : Found d (λ w. u == w) s) (e : depth_at s.depth u ≡ pos d)
      (edge : Edge g u v) (lt : v < g.num_nodes) (new : depth_at s.depth v ≡ minus_one) where
    abbrev deeper : List ℤ
    deeper = set s.depth v (pos (suc d))

    look : (w : ℕ) → depth_at deeper w ≡ (if v == w then pos (suc d) else depth_at s.depth w)
    look w = get_or-set s.depth v w (pos (suc d)) minus_one (omega (arith, f.size))

    deeper-kept : (w k : ℕ) → depth_at s.depth w ≡ pos k → depth_at deeper w ≡ pos k
    deeper-kept w k h = ground (arith, look w)

    deeper-high : (w k : ℕ) → depth_at deeper w ≡ pos k → k ≤ suc d
    deeper-high w k h = ground (arith, look w, f.high w k)

    deeper-reached : (w k : ℕ) → depth_at deeper w ≡ pos k → Walk g source w k
    deeper-reached w k h = elim (Bool-cases (v == w)) [
      | inl here_now ↦
          let same : v ≡ w = ==→eq v w here_now in
          let length_now : suc d ≡ k = ground (arith, look w) in
          subst (λ x. Walk g source x k) same
            (subst (λ n. Walk g source v n) length_now (step (f.reached u d e) edge))
      | inr old ↦ f.reached w k (ground (arith, look w))
    ]

    deeper-closed :
        (x w k : ℕ)
        → depth_at deeper x ≡ pos k
        → elem x (s.to_visit ++ v ∷ []) ≡ false
        → (u == x) ≡ false
        → Edge g x w
        → (j : ℕ) × (depth_at deeper w ≡ pos j) × (j ≤ suc k)
    deeper-closed x w k h out hole edge' =
        let (j, there, near) =
          f.closed x w k (ground (arith, look x, elem-append x s.to_visit (v ∷ [])))
            (ground (arith, elem-append x s.to_visit (v ∷ []))) hole edge' in
        (j, deeper-kept w j there, near)

    deeper-Reached :
        Reached d
          (λ w. u == w)
          (λ w. v == w)
          s
          (record { depth = deeper; to_visit = s.to_visit ++ v ∷ [] })
    deeper-Reached = record {
      good = record {
        size = length-set s.depth v (pos (suc d)) ∙ f.size;
        marks = λ w h. ground (arith, look w, f.marks w);
        root = deeper-kept source 0 f.root;
        reached = deeper-reached;
        high = deeper-high;
        queue =
            Rising-concat deeper d (suc d) v s.to_visit deeper-high (omega arith)
              (ground (arith, look v))
              (Rising-mono s.depth deeper deeper-kept d s.to_visit f.queue);
        closed = deeper-closed;
      };
      done = λ w h. ground (arith, look w);
      kept = deeper-kept;
      count = omega (
        arith,
        length-append s.to_visit (v ∷ []),
        unvisited-set s.depth v (suc d) (omega (arith, f.size)) (ground arith),
      );
    }

  reach_vertex-Reached :
      (d u v : ℕ) (s : Visits)
      → Found d (λ w. u == w) s
      → depth_at s.depth u ≡ pos d
      → Edge g u v
      → v < g.num_nodes
      → Reached d (λ w. u == w) (λ w. v == w) s (reach_vertex u s v)
  unfolding reach_vertex
  reach_vertex-Reached d u v s f e edge lt =
      elim (Bool-cases (eq_ℤ (depth_at s.depth v) minus_one)) [
        | inl new ↦
            let next : depth_at s.depth u +ℤ pos 1 ≡ pos (suc d) = rw e (ap pos (omega arith)) in
            rw (new, next) (deeper-Reached d u v s f e edge lt (eq_ℤ→eq _ _ new))
        | inr old ↦ rw old (record {
          good = f;
          done = λ w h. ground (arith, f.marks w);
          kept = λ w k h. h;
          count = refl;
        })
      ]

  inner-Reached :
      (d u : ℕ) (vs : List ℕ) (s : Visits)
      → Found d (λ w. u == w) s
      → depth_at s.depth u ≡ pos d
      → ((v : ℕ) → elem v vs ≡ true → Edge g u v)
      → AllLt g.num_nodes vs
      → Reached d (λ w. u == w) (λ w. elem w vs) s (foldl (reach_vertex u) s vs)
  inner-Reached d u [] s f e edges low = record {
    good = f;
    done = λ w h. cc;
    kept = λ w k h. h;
    count = refl;
  }
  inner-Reached d u (v ∷ vs) s f e edges low =
      let one = reach_vertex-Reached d u v s f e (edges v (ground arith)) low.0 in
      let rest =
        inner-Reached d u vs (reach_vertex u s v) one.good (one.kept u d e)
          (λ w h. edges w (ground arith)) low.1 in
      record {
        good = rest.good;
        done = λ w h. elim (Bool-cases (w == v)) [
          | inl same ↦
              still (reach_vertex u s v).depth
                (foldl (reach_vertex u) (reach_vertex u s v) vs).depth rest.kept w
                (one.done w (ground arith))
          | inr other ↦ rest.done w (ground arith)
        ];
        kept = λ w k h. rest.kept w k (one.kept w k h);
        count = rest.count ∙ one.count;
      }
    where
      still :
          (before after : List ℤ)
          → ((w k : ℕ) → depth_at before w ≡ pos k → depth_at after w ≡ pos k)
          → (w : ℕ) → visited before w ≡ true
          → visited after w ≡ true
      still before after keep w h = known (depth_at before w) refl h
        where
          known : (z : ℤ) → depth_at before w ≡ z → not (is_neg z) ≡ true → visited after w ≡ true
          known (pos k) e h = ground (arith, keep w k e)
          known (negsuc k) e h = cc

  visited_depth :
      (depth : List ℤ) (v : ℕ) → visited depth v ≡ true → (k : ℕ) × (depth_at depth v ≡ pos k)
  visited_depth depth v h = known (depth_at depth v) refl h
    where
      known :
          (z : ℤ)
          → depth_at depth v ≡ z
          → not (is_neg z) ≡ true
          → (k : ℕ) × (depth_at depth v ≡ pos k)
      known (pos k) e h = (k, e)
      known (negsuc k) e h = cc

  module _ (valid : IsValid g) where
    abbrev none_open : ℕ → Bool
    none_open w = false

    -- One round of the outer loop.
    round_Found :
        (d u : ℕ) (depth : List ℤ) (rest : List ℕ)
        → Found d none_open (record { depth = depth; to_visit = u ∷ rest })
        → let t =
            foldl (reach_vertex u) (record { depth = depth; to_visit = rest }) (out_neigh g u 0) in
          (k : ℕ) × Found k none_open t
          × (length t.to_visit + unvisited t.depth ≡ length rest + unvisited depth)
    round_Found d u depth rest f =
        let (k, e, low, rising) = f.queue in
        let inside : u < g.num_nodes = omega (arith, f.size, visited-lt depth u (rw e refl)) in
        let opened : Found k (λ w. u == w) (record { depth = depth; to_visit = rest }) = record {
          size = f.size;
          marks = f.marks;
          root = f.root;
          reached = f.reached;
          high = λ v j h. omega (arith, f.high v j h);
          queue = rising;
          closed = λ x w j h out hole edge. f.closed x w j h (ground arith) refl edge;
        } in
        let r =
          inner-Reached k u (out_neigh g u 0) (record { depth = depth; to_visit = rest }) opened e
            (λ v h. h) (valid.targets u inside) in
        (
          k,
          record {
            size = r.good.size;
            marks = r.good.marks;
            root = r.good.root;
            reached = r.good.reached;
            high = r.good.high;
            queue = r.good.queue;
            closed = λ x w j h out hole edge. elim (Bool-cases (u == x)) [
              | inr other ↦ r.good.closed x w j h out other edge
              | inl same ↦
                  let (i, there) = visited_depth _ w (r.done w (ground arith)) in
                  let at_u = r.kept u k e in (i, there, ground (arith, r.good.high w i there))
            ];
          },
          r.count,
        )

    pub depth_loop-Found :
        (fuel d : ℕ) (depth : List ℤ) (pending : List ℕ)
        → Found d none_open (record { depth = depth; to_visit = pending })
        → length pending + unvisited depth ≤ fuel
        → (final : List ℤ) × (depth_loop g fuel depth pending ≡ some final)
          × ((k : ℕ) × Found k none_open (record { depth = final; to_visit = [] }))
    unfolding depth_loop
    depth_loop-Found zero d depth [] f h = (depth, refl, (d, f))
    depth_loop-Found zero d depth (u ∷ rest) f h = absurd (omega arith)
    depth_loop-Found (suc fuel) d depth [] f h = (depth, refl, (d, f))
    depth_loop-Found (suc fuel) d depth (u ∷ rest) f h =
        let (k, found, count) = round_Found d u depth rest f in
        depth_loop-Found fuel k _ _ found (omega arith)
