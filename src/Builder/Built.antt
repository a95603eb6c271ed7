-- ===== src/Builder/Built.antt =====
-- The graphs that MakeGraphFromEL of src/builder.h makes are those that the kernels ask for.
use gapbs_bfs_experiment.Base.{
  ℕ, ◌+◌, ◌-◌, ◌*◌, ◌^◌, ◌≤◌, ◌<◌, max, ◌≡◌, refl, ◌∙◌, sym, subst, arith, Bool, true, false, ◌&&◌,
  ◌||◌, List, [], ◌∷◌, foldl, length, get_or, elem, some, ltb, lt→ltb, AllLt, if◌then◌else◌, inl,
  inr, Bool-cases, ◌==◌,
}
use gapbs_bfs_experiment.Graph.{
  Graph, neighborhood, undirected_graph, directed_graph, out_neigh, in_neigh, out_degree, IsValid,
}
use gapbs_bfs_experiment.Builder.{
  EdgePair, Settings, make_csr, find_max_node_id, make_graph_from_el,
}
use gapbs_bfs_experiment.Builder.Arcs.{Arc, arcs, targets, Sourced, length-targets}
use gapbs_bfs_experiment.Builder.Stored.{neighborhood-make_csr, degree-make_csr}

-- The ends of the edges are below `n`.
abbrev Ends : ℕ → List EdgePair → Type 0
Ends n [] = Unit {0}
Ends n (e ∷ el) = (e.u < n) × ((e.v < n) × Ends n el)

Ends-max :
    (el : List EdgePair) (seen : ℕ)
    → let most = foldl (λ max_seen e. max (max max_seen e.u) e.v) seen el in
      (seen ≤ most) × Ends (most + 1) el
Ends-max [] seen = (omega arith, tt)
Ends-max (e ∷ el) seen =
    let (le, ends) = Ends-max el (max (max seen e.u) e.v) in
    (omega arith, (omega arith, (omega arith, ends)))

Ends-find_max : (el : List EdgePair) → Ends (find_max_node_id el + 1) el
unfolding find_max_node_id
Ends-find_max el = (Ends-max el 0).1

Sourced-arcs :
    (n : ℕ) (symmetrize transpose : Bool) (el : List EdgePair)
    → Ends n el
    → Sourced n (arcs symmetrize transpose el)
Sourced-arcs n symmetrize transpose [] h = tt
Sourced-arcs n true transpose (e ∷ el) h = (h.0, (h.1.0, Sourced-arcs n true transpose el h.1.1))
Sourced-arcs n false false (e ∷ el) h = (h.0, Sourced-arcs n false false el h.1.1)
Sourced-arcs n false true (e ∷ el) h = (h.1.0, Sourced-arcs n false true el h.1.1)

-- An arc at the head of the list.
AllLt-target :
    (n u : ℕ) (a : Arc) (rest : List Arc)
    → a.1 < n
    → AllLt n (targets u rest)
    → AllLt n (targets u (a ∷ rest))
AllLt-target n u a rest lt h = elim (Bool-cases (u == a.0)) [
  | inl e ↦ rw e (lt, h)
  | inr e ↦ rw e h
]

targets-AllLt :
    (n u : ℕ) (symmetrize transpose : Bool) (el : List EdgePair)
    → Ends n el
    → AllLt n (targets u (arcs symmetrize transpose el))
targets-AllLt n u symmetrize transpose [] h = tt
targets-AllLt n u true transpose (e ∷ el) h =
    AllLt-target n u (e.u, e.v) ((e.v, e.u) ∷ arcs true transpose el) h.1.0
      (AllLt-target n u (e.v, e.u) (arcs true transpose el) h.0
        (targets-AllLt n u true transpose el h.1.1))
targets-AllLt n u false false (e ∷ el) h =
    AllLt-target n u (e.u, e.v) (arcs false false el) h.1.0 (targets-AllLt n u false false el h.1.1)
targets-AllLt n u false true (e ∷ el) h =
    AllLt-target n u (e.v, e.u) (arcs false true el) h.0 (targets-AllLt n u false true el h.1.1)

elem-target :
    (u v : ℕ) (a : Arc) (rest : List Arc)
    → elem v (targets u (a ∷ rest)) ≡ (u == a.0 && v == a.1 || elem v (targets u rest))
elem-target u v a rest = elim (Bool-cases (u == a.0)) [ inl e ↦ rw e refl | inr e ↦ rw e refl ]

-- The transposed arcs are the arcs backwards, and symmetrized arcs go both ways.
elem-reversed :
    (u v : ℕ) (el : List EdgePair)
    → elem v (targets u (arcs false false el)) ≡ elem u (targets v (arcs false true el))
elem-reversed u v [] = refl
elem-reversed u v (e ∷ el) =
    elem-target u v (e.u, e.v) (arcs false false el)
    ∙ ground (arith, elem-reversed u v el)
    ∙ sym (elem-target v u (e.v, e.u) (arcs false true el))

elem-both :
    (u v : ℕ) (el : List EdgePair)
    → elem v (targets u (arcs true false el)) ≡ elem u (targets v (arcs true false el))
elem-both u v [] = refl
elem-both u v (e ∷ el) =
    elem-target u v (e.u, e.v) ((e.v, e.u) ∷ arcs true false el)
    ∙ ground (
      arith,
      elem-both u v el,
      elem-target u v (e.v, e.u) (arcs true false el),
      elem-target v u (e.v, e.u) (arcs true false el),
    )
    ∙ sym (elem-target v u (e.u, e.v) ((e.v, e.u) ∷ arcs true false el))

length-arcs :
    (symmetrize transpose : Bool) (el : List EdgePair)
    → length (arcs symmetrize transpose el) ≤ 2 * length el
length-arcs symmetrize transpose [] = omega arith
length-arcs true transpose (e ∷ el) = omega (arith, length-arcs true transpose el)
length-arcs false false (e ∷ el) = omega (arith, length-arcs false false el)
length-arcs false true (e ∷ el) = omega (arith, length-arcs false true el)

-- The two constructors of CSRGraph, read back.
module _ (n : ℕ) (index neighs inv_index inv_neighs : List ℕ) where
  abbrev finish : Bool → Graph
  finish s =
      if s
      then undirected_graph n index neighs
      else directed_graph n index neighs inv_index inv_neighs

  num_nodes-finish : (s : Bool) → (finish s).num_nodes ≡ n
  unfolding undirected_graph directed_graph
  num_nodes-finish true = refl
  num_nodes-finish false = refl

  out_neigh-finish : (s : Bool) (u : ℕ) → out_neigh (finish s) u 0 ≡ neighborhood index neighs u 0
  unfolding undirected_graph directed_graph out_neigh
  out_neigh-finish true u = refl
  out_neigh-finish false u = refl

  out_degree-finish :
      (s : Bool) (u : ℕ) → out_degree (finish s) u ≡ get_or index (u + 1) 0 - get_or index u 0
  unfolding undirected_graph directed_graph out_degree
  out_degree-finish true u = refl
  out_degree-finish false u = refl

  in_neigh-finish :
      (s : Bool) (u : ℕ)
      → in_neigh (finish s) u 0
        ≡ (if s then neighborhood index neighs u 0 else neighborhood inv_index inv_neighs u 0)
  unfolding undirected_graph directed_graph in_neigh
  in_neigh-finish true u = refl
  in_neigh-finish false u = refl

module _ (o : Settings) (fresh : ℕ) (el : List EdgePair) (apart : o.in_place ≡ false)
    (pos_size : 0 < o.block_size) (few : 2 * length el < 2 ^ 31)
    (low_ids : find_max_node_id el + 1 < 2 ^ 31) where
  abbrev n : ℕ
  n = find_max_node_id el + 1

  few_arcs : (transpose : Bool) → length (arcs o.symmetrize transpose el) < 2 ^ 31
  few_arcs transpose = omega (arith, length-arcs o.symmetrize transpose el, few)

  abbrev g : Graph
  g =
      let (index, neighs) = make_csr o fresh n el false in
      let (inv_index, inv_neighs) = make_csr o fresh n el true in
      finish n index neighs inv_index inv_neighs o.symmetrize

  stored :
      (transpose : Bool) (u : ℕ)
      → u < n
      → let (index, neighs) = make_csr o fresh n el transpose in
        neighborhood index neighs u 0 ≡ targets u (arcs o.symmetrize transpose el)
  stored transpose =
      neighborhood-make_csr o fresh n el transpose apart pos_size
        (Sourced-arcs n o.symmetrize transpose el (Ends-find_max el)) (few_arcs transpose)

  num_nodes-built : g.num_nodes ≡ n
  num_nodes-built = num_nodes-finish _ _ _ _ _ o.symmetrize

  -- The neighbours out of a vertex of the graph.
  out_neigh-built : (u : ℕ) → u < n → out_neigh g u 0 ≡ targets u (arcs o.symmetrize false el)
  out_neigh-built u h = out_neigh-finish _ _ _ _ _ o.symmetrize u ∙ stored false u h

  out_degree-built :
      (u : ℕ) → u < n → out_degree g u ≡ length (targets u (arcs o.symmetrize false el))
  out_degree-built u h =
      out_degree-finish _ _ _ _ _ o.symmetrize u
      ∙ degree-make_csr o fresh n el false apart pos_size
          (Sourced-arcs n o.symmetrize false el (Ends-find_max el)) (few_arcs false) u h

  in_neigh-built :
      (v : ℕ)
      → v < n
      → in_neigh g v 0 ≡ (
          if o.symmetrize
          then targets v (arcs o.symmetrize false el)
          else targets v (arcs o.symmetrize true el))
  in_neigh-built v h =
      in_neigh-finish _ _ _ _ _ o.symmetrize v ∙ rw (stored false v h, stored true v h) refl

  inverse-built : (u v : ℕ) → u < n → v < n → elem v (out_neigh g u 0) ≡ elem u (in_neigh g v 0)
  inverse-built u v hu hv = rw (out_neigh-built u hu, in_neigh-built v hv) (by_setting o.symmetrize)
    where
      by_setting :
          (s : Bool)
          → elem v (targets u (arcs s false el))
            ≡ elem u (if s then targets v (arcs s false el) else targets v (arcs s true el))
      by_setting true = elem-both u v el
      by_setting false = elem-reversed u v el

  out-AllLt : (u : ℕ) → u < n → AllLt n (out_neigh g u 0)
  out-AllLt u h =
      rw (out_neigh-built u h) (targets-AllLt n u o.symmetrize false el (Ends-find_max el))

  in-AllLt : (v : ℕ) → v < n → AllLt n (in_neigh g v 0)
  in-AllLt v h = rw (in_neigh-built v h) (by_setting o.symmetrize)
    where
      by_setting :
          (s : Bool)
          → AllLt n (if s then targets v (arcs s false el) else targets v (arcs s true el))
      by_setting true = targets-AllLt n v true false el (Ends-find_max el)
      by_setting false = targets-AllLt n v false true el (Ends-find_max el)

  g-IsValid : IsValid g
  g-IsValid =
      let same = num_nodes-built in
      record {
        targets = λ u h.
            subst (λ k. AllLt k (out_neigh g u 0)) (sym same) (out-AllLt u (omega (arith, same)));
        sources = λ v h.
            subst (λ k. AllLt k (in_neigh g v 0)) (sym same) (in-AllLt v (omega (arith, same)));
        inverse = λ u v hu hv. inverse-built u v (omega (arith, same)) (omega (arith, same));
        degrees = λ u h. omega (
          arith,
          out_degree-built u (omega (arith, same)),
          length-targets u (arcs o.symmetrize false el),
          length-arcs o.symmetrize false el,
          few,
        );
      }

  -- From fewer than 2^30 edges between vertices below 2^31 - 1, not in place and with blocks of any
  -- positive size, a graph is built, and it is one that the kernels accept: neighbours are vertices, the
  -- incoming lists mirror the outgoing ones, and degrees fit 32 bits.
  pub make_graph_from_el-IsValid :
      (built : Graph) × (make_graph_from_el o fresh el ≡ some built) × IsValid built
  unfolding make_graph_from_el
  make_graph_from_el-IsValid =
      let fits : ltb (find_max_node_id el + 1) (2 ^ 31) ≡ true = lt→ltb _ _ low_ids in
      (g, rw fits refl, g-IsValid)
