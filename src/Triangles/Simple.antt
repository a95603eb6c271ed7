-- ===== src/Triangles/Simple.antt =====
-- OrderedCount (src/tc.cc) on a graph without self-loops counts each triangle once.
use gapbs_bfs_experiment.Base.{
  ℕ, suc, ◌+◌, ◌<◌, ◌≡◌, ◌∙◌, refl, ap, arith, true, false, ◌&&◌, some, List, [], ◌∷◌, elem,
  elem-lt, ltb, ◌==◌, ==→eq, if◌then◌else◌, Bool-cases, inl, inr,
}
use gapbs_bfs_experiment.Graph.{Graph, IsValid, out_neigh, in_neigh, vertices}
use gapbs_bfs_experiment.Components.Sampling.{vertex_lt}
use gapbs_bfs_experiment.Triangles.Scan.{ascending, common}
use gapbs_bfs_experiment.Triangles.Counted.{triangles_at, triangles, ordered_count_with_loops}
use gapbs_bfs_experiment.Triangles.{ordered_count}

-- How many of `ws` are below `v` and in `row`.
abbrev pub common_below : ℕ → List ℕ → List ℕ → ℕ
common_below v [] row = 0
common_below v (w ∷ ws) row =
    let rest = common_below v ws row in if ltb w v && elem w row then suc rest else rest

-- The pairs of a neighbour v of u in `vs` and a neighbour w of both, with w < v < u.
abbrev pub triangles_under : Graph → ℕ → List ℕ → ℕ
triangles_under g u [] = 0
triangles_under g u (v ∷ vs) =
    let rest = triangles_under g u vs in
    if ltb v u then common_below v (out_neigh g u 0) (out_neigh g v 0) + rest else rest

-- The triples of neighbours u, v and w with u > v > w and u in the list.
abbrev pub simple_triangles : Graph → List ℕ → ℕ
simple_triangles g [] = 0
simple_triangles g (u ∷ us) = triangles_under g u (out_neigh g u 0) + simple_triangles g us

apart : (w v : ℕ) (row : List ℕ) → elem v row ≡ false → elem w row ≡ true → (w == v) ≡ false
apart w v row free h = elim (Bool-cases (w == v)) [
  | inr other ↦ other
  | inl e ↦
      let same : elem w row ≡ elem v row = ap (λ x. elem x row) (==→eq w v e) in
      ground (arith, free, h, same)
]

common_strict :
    (v : ℕ) (ws row : List ℕ) → elem v row ≡ false → common v ws row ≡ common_below v ws row
common_strict v [] row free = refl
common_strict v (w ∷ ws) row free =
    let rest = common_strict v ws row free in
    elim (Bool-cases (elem w row)) [
      | inl shared ↦ let other = apart w v row free shared in ground (arith, rest)
      | inr alone ↦ ground (arith, rest)
    ]

module _ (g : Graph) (no_loop : (u : ℕ) → u < g.num_nodes → elem u (out_neigh g u 0) ≡ false) where
  triangles_strict :
      (u : ℕ) (vs : List ℕ)
      → elem u vs ≡ false
      → ((v : ℕ) → elem v vs ≡ true → v < g.num_nodes)
      → triangles_at g u vs ≡ triangles_under g u vs
  triangles_strict u [] free low = refl
  triangles_strict u (v ∷ vs) free low =
      let rest = triangles_strict u vs (ground (arith, free)) (λ z h. low z (ground (arith, h))) in
      let here =
        common_strict v (out_neigh g u 0) (out_neigh g v 0) (no_loop v (low v (ground arith))) in
      ground (arith, rest, here, free)

  module _ (valid : IsValid g) (undirected : (u : ℕ) → in_neigh g u 0 ≡ out_neigh g u 0)
      (sorted : (u : ℕ) → u < g.num_nodes → ascending 0 (out_neigh g u 0) ≡ true) where
    all_strict :
        (us : List ℕ)
        → ((u : ℕ) → elem u us ≡ true → u < g.num_nodes)
        → triangles g us ≡ simple_triangles g us
    all_strict [] low = refl
    all_strict (u ∷ us) low =
        let hu = low u (ground arith) in
        let here =
          triangles_strict u (out_neigh g u 0) (no_loop u hu)
            (λ v h. elem-lt g.num_nodes v (out_neigh g u 0) (valid.targets u hu) h) in
        let rest = all_strict us (λ z h. low z (ground (arith, h))) in rw (here, rest) refl

    -- On a valid undirected graph without self-loops whose neighbourhoods are in ascending order,
    -- OrderedCount ends, no iterator leaves its neighbourhood, and the result is the number of triples of
    -- vertices u > v > w of which each two are neighbours, a triple counted as often as v and w occur in the
    -- neighbourhood of u.
    pub ordered_count_lem : ordered_count g ≡ some (simple_triangles g (vertices g))
    ordered_count_lem =
        ordered_count_with_loops g valid undirected sorted
        ∙ ap (λ n. some n) (all_strict (vertices g) (λ u h. vertex_lt g u h))
