-- ===== src/Components/Afforest.antt =====
-- Afforest (src/cc.cc) labels each vertex with the least vertex of its component.
use gapbs_bfs_experiment.Base.{
  and_then, ℕ, ◌≤◌, ◌<◌, ◌≡◌, ◌↔◌, ◌⊎◌, refl, sym, ap, ◌∙◌, subst, arith, true, false, some, List,
  ◌∷◌, elem, elem-lt, length, length-range, ◌==◌, ==→eq, if◌then◌else◌, Bool-cases, inl, inr,
  get_or-range,
}
use gapbs_bfs_experiment.Graph.{Graph, Edge, IsValid, out_neigh, in_neigh, vertices}
use gapbs_bfs_experiment.Components.Forest.{Roots}
use gapbs_bfs_experiment.Components.Offsets.{out_neigh-drop, split_at}
use gapbs_bfs_experiment.Components.Rounds.{
  Meets, here, against, meets_trans, meets_sym, Sound, Coarser, Grown, for_each-Grown,
  link_all-Grown, meets_joined,
}
use gapbs_bfs_experiment.Components.Sampling.{
  FirstLinked, vertex_lt, vertex_elem, compress-Flattened, out_meets, sample_rounds-Grown,
}
use gapbs_bfs_experiment.Components.{comp_at, init_comp, link_all, finish_vertex, afforest}

-- The vertex is in the tree of the component that is passed over, or all that is left of its edges
-- is in its own tree.
abbrev Settled : Graph → ℕ → ℕ → ℕ → (ℕ → ℕ) → Type 0
Settled g rounds c u q =
    (q u ≡ q c)
    ⊎ (((v : ℕ) → elem v (out_neigh g u rounds) ≡ true → q u ≡ q v)
        × (g.directed ≡ true → (v : ℕ) → elem v (in_neigh g u 0) ≡ true → q u ≡ q v))

-- Each vertex has the least vertex that it meets as its label, so two vertices have one label
-- exactly if they meet.
pub record Labels (g : Graph) (comp : List ℕ) : Type 0 where
  pub size : length comp ≡ g.num_nodes
  pub same :
      (u v : ℕ)
      → u < g.num_nodes
      → v < g.num_nodes
      → (comp_at comp u ≡ comp_at comp v) ↔ Meets g u v
  pub own : (u : ℕ) → u < g.num_nodes → Meets g u (comp_at comp u)
  pub least : (u v : ℕ) → u < g.num_nodes → v < g.num_nodes → Meets g u v → comp_at comp u ≤ v

module _ (g : Graph) (valid : IsValid g) where
  Settled-stable :
      (rounds c u : ℕ) (q q' : ℕ → ℕ)
      → Coarser q q'
      → Settled g rounds c u q
      → Settled g rounds c u q'
  Settled-stable rounds c u q q' coarse (inl skipped) = inl (coarse u c skipped)
  Settled-stable rounds c u q q' coarse (inr (out, in_)) =
      inr (λ v h. coarse u v (out v h), λ d v h. coarse u v (in_ d v h))

  in_meets :
      (u v : ℕ) → u < g.num_nodes → elem v (in_neigh g u 0) ≡ true → (v < g.num_nodes) × Edge g v u
  in_meets u v hu h =
      let hv = elem-lt g.num_nodes v (in_neigh g u 0) (valid.sources u hu) h in
      (hv, valid.inverse v u hv hu ∙ h)

  finish_vertex-Grown :
      (rounds c u : ℕ) (comp : List ℕ) (r : ℕ → ℕ)
      → u < g.num_nodes
      → Sound g comp r
      → Grown g r (Settled g rounds c u) (finish_vertex g rounds c u comp)
  unfolding finish_vertex
  finish_vertex-Grown rounds c u comp r hu s =
      let a =
        link_all-Grown u (out_neigh g u rounds) hu (λ v h. out_meets g valid u rounds v hu h) s in
      let b =
        link_all-Grown u (in_neigh g u 0) hu
          (λ v h. let (hv, edge) = in_meets u v hu h in (hv, against hv edge here)) a.state in
      let out = link_all u (out_neigh g u rounds) comp in
      let both = and_then out (λ comp'. link_all u (in_neigh g u 0) comp') in
      elim (Bool-cases (comp_at comp u == c)) [
        | inl skip ↦
            let in_c : r u ≡ r c = sym (s.roots.same u hu) ∙ ap r (==→eq (comp_at comp u) c skip) in
            rw skip (record {
              comp' = comp;
              r' = r;
              ends = refl;
              state = s;
              coarser = λ x y same. same;
              did = inl in_c;
            })
        | inr work ↦ elim (Bool-cases g.directed) [
          | inl two ↦
              let run : both ≡ some b.comp' = rw a.ends b.ends in
              record {
                comp' = b.comp';
                r' = b.r';
                ends = rw work (ap (λ d. if d then both else out) two ∙ run);
                state = b.state;
                coarser = λ x y same. b.coarser x y (a.coarser x y same);
                did = inr (λ v h. b.coarser u v (a.did v h), λ d v h. b.did v h);
              }
          | inr one ↦ record {
            comp' = a.comp';
            r' = a.r';
            ends = rw work (ap (λ d. if d then both else out) one ∙ a.ends);
            state = a.state;
            coarser = a.coarser;
            did = inr (a.did, λ d v h. cc);
          }
        ]
      ]

  -- The trees of the new array: each vertex by itself.
  pub init-Sound : Sound g (init_comp g) (λ x. x)
  unfolding init_comp
  init-Sound = record {
    roots = record {
      size = length-range 0 g.num_nodes;
      parent = λ i hi. ground (arith, get_or-range 0 g.num_nodes i 0 hi);
      same = λ i hi. get_or-range 0 g.num_nodes i 0 hi ∙ omega arith;
      fixed = λ i hi e. refl;
      below = λ i hi. omega arith;
      is_root = λ i hi. get_or-range 0 g.num_nodes i 0 hi ∙ omega arith;
    };
    sound = λ x hx. here;
  }

  out_joined :
      (rounds : ℕ) (q : ℕ → ℕ) (u v : ℕ)
      → ((i : ℕ) → i < rounds → FirstLinked g i u q)
      → Edge g u v
      → ((w : ℕ) → elem w (out_neigh g u rounds) ≡ true → q u ≡ q w)
      → q u ≡ q v
  out_joined rounds q u v firsts edge rest = elim (split_at v rounds (out_neigh g u 0) edge) [
    | inl (i, vs, lt, at) ↦ firsts i lt v vs (out_neigh-drop g u i ∙ at)
    | inr behind ↦ rest v (ap (elem v) (out_neigh-drop g u rounds) ∙ behind)
  ]

  -- An edge is inside one tree, if the sampling rounds linked the first neighbours of all vertices
  -- and the last phase settled all vertices.
  module _ (rounds c : ℕ) (q : ℕ → ℕ)
      (undirected : g.directed ≡ false → (u : ℕ) → in_neigh g u 0 ≡ out_neigh g u 0)
      (firsts : (i u : ℕ) → i < rounds → u < g.num_nodes → FirstLinked g i u q)
      (settled : (u : ℕ) → u < g.num_nodes → Settled g rounds c u q) where
    one_tree : (u v : ℕ) → u < g.num_nodes → Edge g u v → q u ≡ q v
    one_tree u v hu edge =
        let hv = elem-lt g.num_nodes v (out_neigh g u 0) (valid.targets u hu) edge in
        let back : elem u (in_neigh g v 0) ≡ true = sym (valid.inverse u v hu hv) ∙ edge in
        elim (settled u hu) [
          | inr (out, in_) ↦ out_joined rounds q u v (λ i lt. firsts i u lt hu) edge out
          | inl here_c ↦ elim (settled v hv) [
            | inl there_c ↦ here_c ∙ sym there_c
            | inr (out, in_) ↦ elim (Bool-cases g.directed) [
              | inl two ↦ sym (in_ two u back)
              | inr one ↦
                  let edge_back : Edge g v u = ap (elem u) (sym (undirected one v)) ∙ back in
                  sym (out_joined rounds q v u (λ i lt. firsts i v lt hv) edge_back out)
            ]
          ]
        ]

  -- A flat array of trees in which those that meet are joined.
  pub flat-Labels :
      (comp : List ℕ) (q : ℕ → ℕ)
      → Roots g.num_nodes comp q
      → ((u : ℕ) → u < g.num_nodes → comp_at comp u ≡ q u)
      → ((u : ℕ) → u < g.num_nodes → Meets g u (q u))
      → ((u w : ℕ) → Meets g u w → q u ≡ q w)
      → Labels g comp
  flat-Labels comp q roots flat own joined = record {
    size = roots.size;
    same = λ u v hu hv. (
      λ e.
          let one : q u ≡ q v = sym (flat u hu) ∙ e ∙ flat v hv in
          meets_trans (own u hu) (subst (λ x. Meets g x v) (sym one) (meets_sym (own v hv))),
      λ m. flat u hu ∙ joined u v m ∙ sym (flat v hv),
    );
    own = λ u hu. subst (Meets g u) (sym (flat u hu)) (own u hu);
    least = λ u v hu hv m. omega (arith, flat u hu, joined u v m, roots.below v hv);
  }

  -- On a valid graph, and whatever component the samples name, Afforest ends and labels each
  -- vertex with the least vertex that it meets along edges in either direction, so that two
  -- vertices have one label exactly if they meet. The incoming lists of an undirected graph are
  -- its outgoing ones.
  pub afforest-Labels :
      (sample : List ℕ → ℕ) (rounds : ℕ)
      → (g.directed ≡ false → (u : ℕ) → in_neigh g u 0 ≡ out_neigh g u 0)
      → (comp : List ℕ) × (afforest sample g rounds ≡ some comp) × Labels g comp
  unfolding afforest
  afforest-Labels sample rounds undirected =
      let a = sample_rounds-Grown g valid 0 rounds (init_comp g) (λ x. x) init-Sound in
      let c = sample a.comp' in
      let b =
        for_each-Grown (finish_vertex g rounds c) (Settled g rounds c) (Settled-stable rounds c)
          (vertices g) (λ u comp q h s. finish_vertex-Grown rounds c u comp q (vertex_lt g u h) s)
          a.state in
      let f = compress-Flattened g b.comp' b.r' b.state.roots in
      let firsts =
        λ (i u : ℕ) (lt : i < rounds) (hu : u < g.num_nodes) (v : ℕ) (vs : List ℕ)
            (e : out_neigh g u i ≡ v ∷ vs).
          b.coarser u v (a.did i u (omega arith) (omega arith) (vertex_elem g u hu) v vs e) in
      let settled = λ (u : ℕ) (hu : u < g.num_nodes). b.did u (vertex_elem g u hu) in
      (
        f.comp',
        rw a.ends (rw b.ends f.ends),
        flat-Labels f.comp' b.r' f.roots (λ u hu. f.flat u (vertex_elem g u hu)) b.state.sound
            (λ u w m. meets_joined b.r' (one_tree rounds c b.r' undirected firsts settled) m),
      )
