-- ===== src/Triangles/Counted.antt =====
-- What OrderedCount (src/tc.cc) counts on an undirected graph.
use gapbs_bfs_experiment.Base.{
  ℕ, ◌+◌, ◌<◌, ◌≡◌, refl, ◌∙◌, arith, true, some, List, [], ◌∷◌, elem, elem-lt, ltb, leb,
  if◌then◌else◌, Bool-cases, inl, inr,
}
use gapbs_bfs_experiment.Graph.{Graph, IsValid, out_neigh, in_neigh, vertices}
use gapbs_bfs_experiment.Components.Sampling.{vertex_lt}
use gapbs_bfs_experiment.Triangles.Scan.{ascending, common, count_with_lem}
use gapbs_bfs_experiment.Triangles.{count_edges, count_vertices, ordered_count}

-- The pairs of a neighbour v of u in `vs` and a neighbour w of both, with w ≤ v ≤ u.
abbrev pub triangles_at : Graph → ℕ → List ℕ → ℕ
triangles_at g u [] = 0
triangles_at g u (v ∷ vs) =
    let rest = triangles_at g u vs in
    if leb v u then common v (out_neigh g u 0) (out_neigh g v 0) + rest else rest

abbrev pub triangles : Graph → List ℕ → ℕ
triangles g [] = 0
triangles g (u ∷ us) = triangles_at g u (out_neigh g u 0) + triangles g us

none_above :
    (g : Graph) (u low : ℕ) (vs : List ℕ)
    → ascending low vs ≡ true
    → u < low
    → triangles_at g u vs ≡ 0
none_above g u low [] s h = refl
none_above g u low (v ∷ vs) s h = ground (arith, none_above g u v vs)

module _ (g : Graph) (valid : IsValid g) (undirected : (u : ℕ) → in_neigh g u 0 ≡ out_neigh g u 0)
    (sorted : (u : ℕ) → u < g.num_nodes → ascending 0 (out_neigh g u 0) ≡ true) where
  count_edges_lem :
      (u low : ℕ) (vs : List ℕ) (total : ℕ)
      → u < g.num_nodes
      → ascending low vs ≡ true
      → ((v : ℕ) → elem v vs ≡ true → elem v (out_neigh g u 0) ≡ true)
      → count_edges g u vs total ≡ some (total + triangles_at g u vs)
  unfolding count_edges
  count_edges_lem u low [] total hu s within =
      (let same : total + 0 ≡ total = omega arith in rw same refl)
  count_edges_lem u low (v ∷ vs) total hu s within = elim (Bool-cases (ltb u v)) [
    | inl breaks ↦
        let nothing = none_above g u v (v ∷ vs) (ground arith) (ground arith) in
        rw (breaks, nothing) ((let same : total + 0 ≡ total = omega arith in rw same refl))
    | inr goes_on ↦
        let edge = within v (ground arith) in
        let hv = elem-lt g.num_nodes v (out_neigh g u 0) (valid.targets u hu) edge in
        let back : elem u (out_neigh g v 0) ≡ true =
          rw (valid.inverse v u hv hu, undirected u) edge in
        let here =
          count_with_lem v u 0 0 (out_neigh g u 0) (out_neigh g v 0) total (sorted u hu)
            (sorted v hv) back (ground arith) in
        let more = common v (out_neigh g u 0) (out_neigh g v 0) in
        let rest =
          count_edges_lem u v vs (total + more) hu (ground arith)
            (λ z h. within z (ground arith)) in
        let sum : total + more + triangles_at g u vs ≡ total + triangles_at g u (v ∷ vs) =
          ground arith in
        rw (goes_on, here) (rest ∙ rw sum refl)
  ]

  count_vertices_lem :
      (us : List ℕ) (total : ℕ)
      → ((u : ℕ) → elem u us ≡ true → u < g.num_nodes)
      → count_vertices g us total ≡ some (total + triangles g us)
  unfolding count_vertices
  count_vertices_lem [] total within = (let same : total + 0 ≡ total = omega arith in rw same refl)
  count_vertices_lem (u ∷ us) total within =
      let hu = within u (ground arith) in
      let here = count_edges_lem u 0 (out_neigh g u 0) total hu (sorted u hu) (λ v h. h) in
      let one = triangles_at g u (out_neigh g u 0) in
      let rest = count_vertices_lem us (total + one) (λ z h. within z (ground arith)) in
      let sum : total + one + triangles g us ≡ total + (one + triangles g us) = omega arith in
      rw here (rest ∙ rw sum refl)

  pub ordered_count_with_loops : ordered_count g ≡ some (triangles g (vertices g))
  unfolding ordered_count
  ordered_count_with_loops =
      let all = triangles g (vertices g) in
      let same : 0 + all ≡ all = omega arith in
      count_vertices_lem (vertices g) 0 (λ u h. vertex_lt g u h) ∙ rw same refl
