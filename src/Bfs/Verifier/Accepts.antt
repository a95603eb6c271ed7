-- ===== src/Bfs/Verifier/Accepts.antt =====
-- Which parent arrays BFSVerifier (src/bfs.cc) accepts.
use gapbs_bfs_experiment.Base.{
  ℕ, zero, suc, ◌<◌, ◌≡◌, ◌≢◌, ◌↔◌, refl, sym, ap, subst, ◌∙◌, arith, Bool, true, false, not, ◌&&◌,
  some, List, [], ◌∷◌, length, elem, elem-range, get_or-default, inl, inr, ◌⊎◌, Bool-cases,
  if◌then◌else◌, ◌==◌, ==→eq, ℤ, pos, negsuc, minus_one, eq_ℤ, eq_ℤ→eq, eq_ℤ_refl, ◌-ℤ◌, dec_lt,
  ℕ_discrete, pos_part,
}
use mathlib.Core.Bool.{false≢true}
use gapbs_bfs_experiment.Graph.{Graph, in_neigh, vertices, IsValid}
use gapbs_bfs_experiment.Bfs.Parent.{parent_at, visited, visited-lt}
use gapbs_bfs_experiment.Bfs.Tree.{Link}
use gapbs_bfs_experiment.Bfs.Search.Correct.{Walk, here, IsBfsTree}
use gapbs_bfs_experiment.Bfs.Verifier.{depth_at, parent_fits, vertex_fits, all_fit, bfs_verifier}
use gapbs_bfs_experiment.Bfs.Verifier.Depths.{IsDistances, depths_from_lem}

module _ (g : Graph) (source : ℕ) (depth parent : List ℤ) where
  abbrev Fits : ℕ → Type 0
  Fits u = vertex_fits g source depth parent u ≡ true

  all_fit→Fits :
      (us : List ℕ) → all_fit g source depth parent us ≡ true → (u : ℕ) → elem u us ≡ true → Fits u
  unfolding all_fit
  all_fit→Fits [] h u m = cc
  all_fit→Fits (v ∷ us) h u m = elim (Bool-cases (u == v)) [
    | inl same ↦ rw (==→eq u v same) (ground arith)
    | inr other ↦ all_fit→Fits us (ground arith) u (ground arith)
  ]

  Fits→all_fit :
      (us : List ℕ)
      → ((u : ℕ) → elem u us ≡ true → Fits u)
      → all_fit g source depth parent us ≡ true
  unfolding all_fit
  Fits→all_fit [] h = refl
  Fits→all_fit (v ∷ us) h = rw (h v (ground arith)) (Fits→all_fit us (λ u m. h u (ground arith)))

  -- A parent that passes is a listed neighbour one step nearer.
  parent_fits-some :
      (u : ℕ) (vs : List ℕ)
      → parent_fits depth parent u vs ≡ true
      → (v : ℕ) × (parent_at parent u ≡ pos v)
        × (elem v vs ≡ true)
        × (depth_at depth v ≡ depth_at depth u -ℤ pos 1)
  unfolding parent_fits
  parent_fits-some u [] h = cc
  parent_fits-some u (v ∷ vs) h = elim (Bool-cases (eq_ℤ (pos v) (parent_at parent u))) [
    | inl same ↦
        (v, sym (eq_ℤ→eq _ _ same), ground arith, eq_ℤ→eq _ _ (rw (same, parent_fits) at h))
    | inr other ↦
        let (w, e, m, d) = parent_fits-some u vs (rw (other, parent_fits) at h) in
        (w, e, ground arith, d)
  ]

  parent_fits_of :
      (u v : ℕ) (vs : List ℕ)
      → parent_at parent u ≡ pos v
      → elem v vs ≡ true
      → depth_at depth v ≡ depth_at depth u -ℤ pos 1
      → parent_fits depth parent u vs ≡ true
  unfolding parent_fits
  parent_fits_of u v [] e m d = cc
  parent_fits_of u v (w ∷ vs) e m d = elim (Bool-cases (eq_ℤ (pos w) (parent_at parent u))) [
    | inl same ↦
        let vw : w ≡ v = pos_injective (eq_ℤ→eq _ _ same ∙ e) in
        rw same (rw (vw, d) (eq_ℤ_refl (depth_at depth u -ℤ pos 1)))
    | inr other ↦ rw other (parent_fits_of u v vs e (ground arith) d)
  ]
    where
      pos_injective : {a b : ℕ} → pos a ≡ pos b → a ≡ b
      pos_injective h = ground arith

  Fits-unknown : (u : ℕ) → Fits u → depth_at depth u ≡ minus_one → parent_at parent u ≡ minus_one
  unfolding vertex_fits
  Fits-unknown u h e = sym (eq_ℤ→eq minus_one (parent_at parent u) (rw (e, vertex_fits) at h))

  Fits-known :
      (u k : ℕ)
      → Fits u
      → depth_at depth u ≡ pos k
      → ((u ≡ source) × (parent_at parent u ≡ pos u))
        ⊎ ((u ≢ source) × (parent_fits depth parent u (in_neigh g u 0) ≡ true))
  unfolding vertex_fits
  Fits-known u k h e =
      let h' = rw (e, vertex_fits) at h in
      elim (Bool-cases (eq_ℤ (parent_at parent u) minus_one)) [
        | inl lost ↦ absurd (mismatch (eq_ℤ→eq _ _ lost) h')
        | inr kept ↦ elim (Bool-cases (u == source)) [
          | inl top ↦ inl (==→eq u source top, eq_ℤ→eq _ _ (&&-left _ _ (rw (kept, top) at h')))
          | inr other ↦ inr (λ same. ground arith, rw (kept, other) at h')
        ]
      ]
    where
      &&-left : (a b : Bool) → (a && b) ≡ true → a ≡ true
      &&-left a b h = ground arith

      mismatch :
          parent_at parent u ≡ minus_one
          → (if true && not (eq_ℤ (parent_at parent u) minus_one)
              then (if u == source
                  then eq_ℤ (parent_at parent u) (pos u) && eq_ℤ (pos k) (pos 0)
                  else parent_fits depth parent u (in_neigh g u 0))
              else eq_ℤ (pos k) (parent_at parent u))
            ≡ true
          → ⊥
      mismatch lost h = false≢true (rw lost at h)

only_root : {g : Graph} {source : ℕ} (v : ℕ) → Walk g source v 0 → v ≡ source
only_root v here = refl

module _ (g : Graph) (source : ℕ) (parent depth : List ℤ) (valid : IsValid g)
    (inside : source < g.num_nodes) (size : length parent ≡ g.num_nodes)
    (d : IsDistances g source depth) where
  in_range : (v : ℕ) → v < g.num_nodes → elem v (vertices g) ≡ true
  unfolding vertices
  in_range v lt = ground (arith, elem-range v 0 g.num_nodes)

  abbrev hops : ℕ → ℕ
  hops v = pos_part (depth_at depth v)

  module _ (fits : (u : ℕ) → u < g.num_nodes → Fits g source depth parent u) where
    known_lt : (v k : ℕ) → depth_at depth v ≡ pos k → v < g.num_nodes
    known_lt v k e = omega (arith, d.size, visited-lt depth v (rw e refl))

    top_depth : depth_at depth source ≡ pos 0
    top_depth =
        let (j, e, low) = d.shortest source 0 here in
        let zero_hops : j ≡ 0 = omega arith in e ∙ ap pos zero_hops

    -- A vertex at a known depth has a parent entry, and one that is visited has a known depth.
    known_visited : (v k : ℕ) → depth_at depth v ≡ pos k → visited parent v ≡ true
    known_visited v k e = elim (Fits-known g source depth parent v k (fits v (known_lt v k e)) e) [
      | inl (same, entry) ↦ rw entry refl
      | inr (away, found) ↦
          let (w, entry, m, near) =
            parent_fits-some g source depth parent v (in_neigh g v 0) found in
          rw entry refl
    ]

    visited_known : (v : ℕ) → visited parent v ≡ true → (k : ℕ) × (depth_at depth v ≡ pos k)
    visited_known v h = by_sign (depth_at depth v) refl
      where
        by_sign : (z : ℤ) → depth_at depth v ≡ z → (k : ℕ) × (depth_at depth v ≡ pos k)
        by_sign (pos k) e = (k, e)
        by_sign (negsuc k) e =
            let gone =
              Fits-unknown g source depth parent v
                (fits v (omega (arith, size, visited-lt parent v h))) (d.marks v (rw e refl)) in
            absurd (false≢true (rw gone at h))

    root_entry : parent_at parent source ≡ pos source
    root_entry = elim (Fits-known g source depth parent source 0 (fits source inside) top_depth) [
      | inl (same, entry) ↦ entry
      | inr (away, found) ↦ absurd (away refl)
    ]

    accepted-Link : (v : ℕ) → visited parent v ≡ true → v ≢ source → Link g parent hops v
    accepted-Link v h away =
        let (k, e) = visited_known v h in
        elim (Fits-known g source depth parent v k (fits v (known_lt v k e)) e) [
          | inl (same, entry) ↦ absurd (away same)
          | inr (_, found) ↦
              let (w, entry, m, near) =
                parent_fits-some g source depth parent v (in_neigh g v 0) found in
              nearer k e w entry m near
        ]
      where
        nearer :
            (k : ℕ)
            → depth_at depth v ≡ pos k
            → (w : ℕ) → parent_at parent v ≡ pos w
            → elem w (in_neigh g v 0) ≡ true
            → depth_at depth w ≡ depth_at depth v -ℤ pos 1
            → Link g parent hops v
        nearer zero e w entry m near = absurd (away (only_root v (d.reached v 0 e)))
        nearer (suc k) e w entry m near =
            let one_less : depth_at depth w ≡ pos k = near ∙ ground (arith, e) in
            let lv = known_lt v (suc k) e in
            let lw = known_lt w k one_less in
            record {
              from = w;
              entry = entry;
              known = known_visited w k one_less;
              edge = valid.inverse w v lw lv ∙ m;
              below = ground (arith, e, one_less);
            }

    accepted-IsBfsTree : IsBfsTree g source parent
    accepted-IsBfsTree = record {
      size = size;
      root = root_entry;
      depth = hops;
      reached = λ v h.
          let (k, e) = visited_known v h in
          subst (λ n. Walk g source v n) (ground (arith, e)) (d.reached v k e);
      shortest =
          λ v k w. let (j, e, low) = d.shortest v k w in (known_visited v j e, ground (arith, e));
      link = accepted-Link;
      unreached = unreached_entry;
    }
      where
        by_sign :
            (v : ℕ) (z : ℤ)
            → v < g.num_nodes
            → depth_at depth v ≡ z
            → visited parent v ≡ false
            → parent_at parent v ≡ minus_one
        by_sign v (pos k) lt e h = absurd (false≢true (sym h ∙ known_visited v k e))
        by_sign v (negsuc k) lt e h =
            Fits-unknown g source depth parent v (fits v lt) (d.marks v (rw e refl))

        unreached_entry : (v : ℕ) → visited parent v ≡ false → parent_at parent v ≡ minus_one
        unreached_entry v h = elim (dec_lt v g.num_nodes) [
          | yes lt ↦ by_sign v (depth_at depth v) lt refl h
          | no out ↦ get_or-default parent v minus_one (omega (arith, size))
        ]

  module _ (t : IsBfsTree g source parent) where
    -- Both depths are lengths of shortest walks.
    same_depth : (v : ℕ) → visited parent v ≡ true → depth_at depth v ≡ pos (t.depth v)
    same_depth v h =
        let (j, e, low) = d.shortest v (t.depth v) (t.reached v h) in
        let (_, high) = t.shortest v j (d.reached v j e) in
        let same : j ≡ t.depth v = omega arith in e ∙ ap pos same

    no_depth : (v : ℕ) → visited parent v ≡ false → depth_at depth v ≡ minus_one
    no_depth v h = by_sign (depth_at depth v) refl
      where
        by_sign : (z : ℤ) → depth_at depth v ≡ z → depth_at depth v ≡ minus_one
        by_sign (pos k) e = absurd (false≢true (sym h ∙ (t.shortest v k (d.reached v k e)).0))
        by_sign (negsuc k) e = d.marks v (rw e refl)

    tree-Fits : (v : ℕ) → v < g.num_nodes → Fits g source depth parent v
    unfolding vertex_fits
    tree-Fits v lt = elim (Bool-cases (visited parent v)) [
      | inr lost ↦ rw (no_depth v lost, t.unreached v lost) refl
      | inl kept ↦ elim (ℕ_discrete v source) [
        | yes same ↦
            let entry : parent_at parent v ≡ pos v = rw same t.root in
            let top : depth_at depth v ≡ pos 0 =
              let (j, e, low) = d.shortest v 0 (subst (λ x. Walk g source x 0) (sym same) here) in
              let zero_hops : j ≡ 0 = omega arith in e ∙ ap pos zero_hops in
            rw (entry, top) (ground arith)
        | no away ↦
            let k = t.link v kept away in
            let lw : k.from < g.num_nodes = omega (arith, size, visited-lt parent k.from k.known) in
            let near : depth_at depth k.from ≡ depth_at depth v -ℤ pos 1 =
              ground (arith, same_depth v kept, same_depth k.from k.known, k.below) in
            let found =
              parent_fits_of g source depth parent v k.from (in_neigh g v 0) k.entry
                (sym (valid.inverse k.from v lw lt) ∙ k.edge) near in
            ground (arith, same_depth v kept, k.entry)
      ]
    ]

-- The verifier ends, and it accepts a parent array with an entry for each vertex exactly when it is a
-- breadth-first tree from the source.
pub bfs_verifier_lem :
    (g : Graph) (source : ℕ) (parent : List ℤ)
    → IsValid g
    → source < g.num_nodes
    → length parent ≡ g.num_nodes
    → (accepted : Bool) × (bfs_verifier g source parent ≡ some accepted)
      × ((accepted ≡ true) ↔ IsBfsTree g source parent)
bfs_verifier_lem g source parent valid inside size =
    let (depth, e, d) = depths_from_lem g source valid inside in
    (
      all_fit g source depth parent (vertices g),
      unfold bfs_verifier in rw (e, bfs_verifier) refl,
      (
        λ h. accepted-IsBfsTree g source parent depth valid inside size d (λ u lt.
            all_fit→Fits g source depth parent (vertices g) h u
              (in_range g source parent depth valid inside size d u lt)),
        λ t. Fits→all_fit g source depth parent (vertices g) (λ u m.
            tree-Fits g source parent depth valid inside size d t u
              (unfold vertices in ground (arith, elem-range u 0 g.num_nodes))),
      ),
    )
