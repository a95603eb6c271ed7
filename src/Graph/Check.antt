-- ===== src/Graph/Check.antt =====
-- A test that decides whether a graph (src/graph.h) is valid, for concrete graphs.
use gapbs_bfs_experiment.Base.{
  ℕ, zero, suc, ◌^◌, ◌<◌, ◌≡◌, arith, Bool, true, false, not, ◌&&◌, List, [], ◌∷◌, elem, AllLt, ltb,
  ltb→lt,
}
use gapbs_bfs_experiment.Graph.{Graph, out_degree, out_neigh, in_neigh, IsValid}

abbrev pub all_below : ℕ → (ℕ → Bool) → Bool
all_below zero p = true
all_below (suc n) p = p n && all_below n p

pub all_below_sound : (n : ℕ) (p : ℕ → Bool) (x : ℕ) → all_below n p ≡ true → x < n → p x ≡ true
all_below_sound zero p x h lt = absurd (omega arith)
all_below_sound (suc n) p x h lt = ground (arith, all_below_sound n p x)

all_ltb : ℕ → List ℕ → Bool
all_ltb n [] = true
all_ltb n (x ∷ xs) = ltb x n && all_ltb n xs

all_ltb-AllLt : (n : ℕ) (xs : List ℕ) → all_ltb n xs ≡ true → AllLt n xs
unfolding all_ltb
all_ltb-AllLt n [] h = tt
all_ltb-AllLt n (x ∷ xs) h = ground (arith, all_ltb-AllLt n xs)

same : Bool → Bool → Bool
same true b = b
same false b = not b

same_sound : (a b : Bool) → same a b ≡ true → a ≡ b
unfolding same
same_sound a b h = ground arith

local_valid : Graph → ℕ → Bool
unfolding all_ltb same
local_valid g u =
    all_ltb g.num_nodes (out_neigh g u 0)
    && (all_ltb g.num_nodes (in_neigh g u 0)
        && (ltb (out_degree g u) (2 ^ 31)
            && all_below g.num_nodes
                (λ v. same (elem v (out_neigh g u 0)) (elem u (in_neigh g v 0)))))

unfoldable pub valid_graph : Graph → Bool
unfolding local_valid
valid_graph g = all_below g.num_nodes (local_valid g)

&&-parts : (a b : Bool) → (a && b) ≡ true → (a ≡ true) × (b ≡ true)
&&-parts a b h = ground arith

module _ (g : Graph) (h : valid_graph g ≡ true) (u : ℕ) (lt : u < g.num_nodes) where
  local_facts :
      (all_ltb g.num_nodes (out_neigh g u 0) ≡ true)
      × (all_ltb g.num_nodes (in_neigh g u 0) ≡ true)
      × (ltb (out_degree g u) (2 ^ 31) ≡ true)
      × (all_below g.num_nodes (λ v. same (elem v (out_neigh g u 0)) (elem u (in_neigh g v 0)))
          ≡ true)
  unfolding valid_graph local_valid
  local_facts =
      let (a, rest) = &&-parts _ _ (all_below_sound g.num_nodes (local_valid g) u h lt) in
      let (b, rest2) = &&-parts _ _ rest in let (c, d) = &&-parts _ _ rest2 in (a, b, c, d)

pub valid_graph-IsValid : (g : Graph) → valid_graph g ≡ true → IsValid g
valid_graph-IsValid g h = record {
  targets = λ u lt. all_ltb-AllLt g.num_nodes (out_neigh g u 0) (local_facts g h u lt).0;
  sources = λ u lt. all_ltb-AllLt g.num_nodes (in_neigh g u 0) (local_facts g h u lt).1;
  inverse = λ u v lu lv. same_sound _ _ (
      all_below_sound g.num_nodes (λ v. same (elem v (out_neigh g u 0)) (elem u (in_neigh g v 0))) v
        (local_facts g h u lu).3 lv);
  degrees = λ u lt. ltb→lt _ _ (local_facts g h u lt).2;
}
