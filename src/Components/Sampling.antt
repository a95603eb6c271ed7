-- ===== src/Components/Sampling.antt =====
-- Compress and the sampling rounds of Afforest (src/cc.cc) as wholes.
use gapbs_bfs_experiment.Base.{
  ℕ, zero, suc, ◌+◌, ◌≤◌, ◌<◌, ◌≡◌, refl, sym, ap, ◌∙◌, arith, true, false, Option, some, List, [],
  ◌∷◌, elem, elem-lt, range, ◌==◌, ==→eq, Bool-cases, inl, inr, range-AllLt, elem-range,
}
use gapbs_bfs_experiment.Graph.{Graph, Edge, IsValid, out_neigh, vertices}
use gapbs_bfs_experiment.Components.Forest.{Roots}
use gapbs_bfs_experiment.Components.Compress.{compress_vertex-Squashed}
use gapbs_bfs_experiment.Components.Offsets.{out_neigh-drop, elem-drop}
use gapbs_bfs_experiment.Components.Rounds.{
  Meets, here, along, Sound, Grown, link-Grown, for_each-Grown,
}
use gapbs_bfs_experiment.Components.{
  comp_at, for_each, compress, compress_vertex, link_first, sample_vertex, sample_round,
  sample_rounds,
}

-- What a run of Compress leaves: the same trees, and each vertex of `us` directly under its root.
pub record Flattened (g : Graph) (r : ℕ → ℕ) (us comp : List ℕ) (o : Option (List ℕ)) : Type 0 where
  pub comp' : List ℕ
  pub ends : o ≡ some comp'
  pub roots : Roots g.num_nodes comp' r
  pub flat : (u : ℕ) → elem u us ≡ true → comp_at comp' u ≡ r u
  pub others : (u : ℕ) → elem u us ≡ false → comp_at comp' u ≡ comp_at comp u

-- The first neighbour from the offset `i` on is in one tree with `u`.
abbrev pub FirstLinked : Graph → ℕ → ℕ → (ℕ → ℕ) → Type 0
FirstLinked g i u q = (v : ℕ) (vs : List ℕ) → out_neigh g u i ≡ v ∷ vs → q u ≡ q v

module _ (g : Graph) where
  pub vertex_lt : (u : ℕ) → elem u (vertices g) ≡ true → u < g.num_nodes
  unfolding vertices
  vertex_lt u h =
      elem-lt g.num_nodes u (range 0 g.num_nodes)
        (range-AllLt g.num_nodes 0 g.num_nodes (omega arith)) h

  pub vertex_elem : (u : ℕ) → u < g.num_nodes → elem u (vertices g) ≡ true
  unfolding vertices
  vertex_elem u h = ground (arith, elem-range u 0 g.num_nodes)

  flatten_all :
      (us : List ℕ) (comp : List ℕ) (r : ℕ → ℕ)
      → ((u : ℕ) → elem u us ≡ true → u < g.num_nodes)
      → Roots g.num_nodes comp r
      → Flattened g r us comp (for_each compress_vertex us comp)
  unfolding for_each
  flatten_all [] comp r inside t = record {
    comp' = comp;
    ends = refl;
    roots = t;
    flat = λ u h. cc;
    others = λ u h. refl;
  }
  flatten_all (u ∷ us) comp r inside t =
      let first = compress_vertex-Squashed u comp t (inside u (ground arith)) in
      let rest = flatten_all us first.comp' r (λ v h. inside v (ground arith)) first.roots in
      record {
        comp' = rest.comp';
        ends = rw first.ends rest.ends;
        roots = rest.roots;
        flat = λ v h. elim (Bool-cases (elem v us)) [
          | inl later ↦ rest.flat v later
          | inr last ↦
              let same : v ≡ u = ==→eq v u (ground arith) in rest.others v last ∙ rw same first.flat
        ];
        others = λ v h. rest.others v (ground arith) ∙ first.others v (ground arith);
      }

  pub compress-Flattened :
      (comp : List ℕ) (r : ℕ → ℕ)
      → Roots g.num_nodes comp r
      → Flattened g r (vertices g) comp (compress g comp)
  unfolding compress
  compress-Flattened comp r t = flatten_all (vertices g) comp r vertex_lt t

  module _ (valid : IsValid g) where
    pub out_meets :
        (u i v : ℕ)
        → u < g.num_nodes
        → elem v (out_neigh g u i) ≡ true
        → (v < g.num_nodes) × Meets g u v
    out_meets u i v hu h =
        let edge : Edge g u v = elem-drop v i (out_neigh g u 0) (rw (out_neigh-drop g u i) at h) in
        (elem-lt g.num_nodes v (out_neigh g u 0) (valid.targets u hu) edge, along hu edge here)

    link_first-Grown :
        (u : ℕ) (vs comp : List ℕ) (r : ℕ → ℕ)
        → u < g.num_nodes
        → ((v : ℕ) → elem v vs ≡ true → (v < g.num_nodes) × Meets g u v)
        → Sound g comp r
        → Grown g r (λ q. (v : ℕ) (ws : List ℕ) → vs ≡ v ∷ ws → q u ≡ q v) (link_first u vs comp)
    link_first-Grown u [] comp r hu meet s = record {
      comp' = comp;
      r' = r;
      ends = refl;
      state = s;
      coarser = λ x y same. same;
      did = λ v ws e. cc;
    }
    link_first-Grown u (v ∷ vs) comp r hu meet s =
        let (hv, m) = meet v (ground arith) in
        let a = link-Grown u v s hu hv m in
        record {
          comp' = a.comp';
          r' = a.r';
          ends = a.ends;
          state = a.state;
          coarser = a.coarser;
          did = λ w ws e. cc (a.did, e);
        }

    sample_vertex-Grown :
        (i u : ℕ) (comp : List ℕ) (r : ℕ → ℕ)
        → u < g.num_nodes
        → Sound g comp r
        → Grown g r (FirstLinked g i u) (sample_vertex g i u comp)
    unfolding sample_vertex
    sample_vertex-Grown i u comp r hu s =
        link_first-Grown u (out_neigh g u i) comp r hu (λ v h. out_meets u i v hu h) s

    sample_round-Grown :
        (i : ℕ) (comp : List ℕ) (r : ℕ → ℕ)
        → Sound g comp r
        → Grown g r
            (λ q. (u : ℕ) → elem u (vertices g) ≡ true → FirstLinked g i u q)
            (sample_round g i comp)
    unfolding sample_round
    sample_round-Grown i comp r s =
        let a =
          for_each-Grown (sample_vertex g i) (FirstLinked g i)
            (λ u q q' coarse did v vs e. coarse u v (did v vs e)) (vertices g)
            (λ u c q h t. sample_vertex-Grown i u c q (vertex_lt u h) t) s in
        let b = compress-Flattened a.comp' a.r' a.state.roots in
        record {
          comp' = b.comp';
          r' = a.r';
          ends = rw a.ends b.ends;
          state = record { roots = b.roots; sound = a.state.sound };
          coarser = a.coarser;
          did = a.did;
        }

    -- The sampling rounds link the first neighbours from the offsets of the rounds on.
    pub sample_rounds-Grown :
        (i count : ℕ) (comp : List ℕ) (r : ℕ → ℕ)
        → Sound g comp r
        → Grown g r
            (λ q.
              (j u : ℕ) → i ≤ j → j < i + count → elem u (vertices g) ≡ true → FirstLinked g j u q)
            (sample_rounds g i count comp)
    unfolding sample_rounds
    sample_rounds-Grown i zero comp r s = record {
      comp' = comp;
      r' = r;
      ends = refl;
      state = s;
      coarser = λ x y same. same;
      did = λ j u lo hi h. absurd (omega arith);
    }
    sample_rounds-Grown i (suc count) comp r s =
        let a = sample_round-Grown i comp r s in
        let b = sample_rounds-Grown (suc i) count a.comp' a.r' a.state in
        record {
          comp' = b.comp';
          r' = b.r';
          ends = rw a.ends b.ends;
          state = b.state;
          coarser = λ x y same. b.coarser x y (a.coarser x y same);
          did = λ j u lo hi h v vs e. elim (Bool-cases (j == i)) [
            | inl now ↦
                let same : j ≡ i = ==→eq j i now in
                b.coarser u v (a.did u h v vs (ap (out_neigh g u) (sym same) ∙ e))
            | inr later ↦ b.did j u (ground arith) (omega arith) h v vs e
          ];
        }
