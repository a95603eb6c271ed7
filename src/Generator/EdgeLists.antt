-- ===== src/Generator/EdgeLists.antt =====
-- The edge lists and weights of Generator (src/generator.h): how many, and in which range.
use gapbs_bfs_experiment.Base.{
  ℕ, zero, suc, ◌+◌, ◌-◌, ◌*◌, ◌^◌, ◌≤◌, ◌<◌, ◌≡◌, refl, ap, ◌∙◌, arith, Bool, true, false, not,
  some, List, [], ◌∷◌, map, length, length-map, length-range, range, range-AllLt, get_or, AllLt,
  elem-lt, elem-get_or, ltb, if◌then◌else◌, Bool-cases, inl, inr, done, subst,
}
use gapbs_bfs_experiment.Builder.{EdgePair}
use gapbs_bfs_experiment.Generator.{
  Engine, Generator, new_generator, uniform_edges, make_uniform_el, rmat_edge, rmat_edges,
  permute_ids, make_rmat_el, block_weights, insert_weights, bit, part_a, part_b, part_c,
  generate_el,
}
use gapbs_bfs_experiment.Generator.Draws.{dist}
use gapbs_bfs_experiment.Generator.Blocks.{
  All, Makes, by_blocks-Makes, IsLucky, EndsBelow, uniform_edges-Makes, block_weights-Makes,
}

bit_le : (b : Bool) → bit b ≤ 1
bit_le true = omega arith
bit_le false = omega arith

pow_suc : (n d : ℕ) → 2 * n * 2 ^ d ≡ n * 2 ^ suc d
pow_suc n d = grind arith

pow_pos : (a : ℕ) → 0 < 2 ^ a
pow_pos zero = omega arith
pow_pos (suc a) = omega (arith, pow_pos a, pow_suc 1 a)

pow_le : (a d : ℕ) → 2 ^ a ≤ 2 ^ (a + d)
pow_le a zero = let same : a + 0 ≡ a = omega arith in rw same (omega arith)
pow_le a (suc d) =
    let same : a + suc d ≡ suc (a + d) = omega arith in
    rw same (omega (arith, pow_le a d, pow_suc 1 (a + d)))

-- A bit of src and of dst doubles the range.
rmat_edge-EndsBelow :
    (depth n : ℕ) (draws : ℕ → ℕ) (i src dst : ℕ)
    → src < n
    → dst < n
    → EndsBelow (n * 2 ^ depth) (rmat_edge depth draws i src dst)
unfolding rmat_edge
rmat_edge-EndsBelow zero n draws i src dst hs hd = (omega arith, omega arith)
rmat_edge-EndsBelow (suc depth) n draws i src dst hs hd =
    let rand_point = draws i in
    let low = ltb rand_point (part_a + part_b) in
    let dst_bit =
      if low then ltb part_a rand_point else ltb (part_a + part_b + part_c) rand_point in
    let ih =
      rmat_edge-EndsBelow depth (2 * n) draws (suc i) (2 * src + bit (not low))
        (2 * dst + bit dst_bit) (omega (arith, bit_le (not low))) (omega (arith, bit_le dst_bit)) in
    rw (pow_suc n depth) at ih

length-rmat_edges :
    (scale : ℕ) (draws : ℕ → ℕ) (count i : ℕ) → length (rmat_edges scale draws count i) ≡ count
unfolding rmat_edges
length-rmat_edges scale draws zero i = refl
length-rmat_edges scale draws (suc count) i =
    ap suc (length-rmat_edges scale draws count (i + scale))

rmat_edges-EndsBelow :
    (scale : ℕ) (draws : ℕ → ℕ) (count i : ℕ)
    → All (EndsBelow (2 ^ scale)) (rmat_edges scale draws count i)
unfolding rmat_edges
rmat_edges-EndsBelow scale draws zero i = tt
rmat_edges-EndsBelow scale draws (suc count) i =
    let (below_u, below_v) = rmat_edge-EndsBelow scale 1 draws i 0 0 (omega arith) (omega arith) in
    (
      (omega (arith, below_u), omega (arith, below_v)),
      rmat_edges-EndsBelow scale draws count (i + scale),
    )

-- What std::shuffle leaves of an array: its length, and its entries in another order.
abbrev pub Shuffles : (List ℕ → List ℕ) → Type 0
Shuffles shuffle =
    (n : ℕ) (xs : List ℕ) → AllLt n xs → AllLt n (shuffle xs) × (length (shuffle xs) ≡ length xs)

permuted :
    (n : ℕ) (permutation : List ℕ) (el : List EdgePair)
    → AllLt n permutation
    → length permutation ≡ n
    → All (EndsBelow n) el
    → All
        (EndsBelow n)
        (map (λ e. record { u = get_or permutation e.u 0; v = get_or permutation e.v 0 }) el)
permuted n permutation [] h size each = tt
permuted n permutation (e ∷ el) h size each =
    let in_range = λ (i : ℕ) (lt : i < n).
      elem-lt n (get_or permutation i 0) permutation h (elem-get_or permutation i (omega arith)) in
    ((in_range e.u each.0.0, in_range e.v each.0.1), permuted n permutation el h size each.1)

scale_bound : (scale : ℕ) → scale ≤ 30 → (scale + (30 - scale) ≡ 30) × (2 ^ scale ≤ 2 ^ 30)
scale_bound scale h =
    let same : scale + (30 - scale) ≡ 30 = omega arith in
    (same, rw same at (pow_le scale (30 - scale)))

module _ (engine : Engine) (shuffle : List ℕ → List ℕ) (block_size tries : ℕ) (g : Generator) where
  make_uniform_el-Makes :
      0 < block_size
      → 0 < g.num_nodes
      → g.num_nodes < 2 ^ 32
      → IsLucky engine tries (g.num_nodes - 1)
      → Makes (EndsBelow g.num_nodes) g.num_edges (make_uniform_el engine block_size tries g)
  unfolding make_uniform_el
  make_uniform_el-Makes h some_node fits lucky =
      let same : g.num_nodes - 1 + 1 ≡ g.num_nodes = omega arith in
      let m =
        by_blocks-Makes (EndsBelow (g.num_nodes - 1 + 1))
          (λ seed count. uniform_edges tries (dist (g.num_nodes - 1)) (engine seed) count 0)
          block_size g.num_edges g.num_edges 0 h (omega arith)
          (λ seed count.
            uniform_edges-Makes engine tries (g.num_nodes - 1) seed count 0 (omega arith) lucky) in
      record {
        items = m.items;
        ends = m.ends;
        size = omega (arith, m.size);
        each = subst (λ n. All (EndsBelow n) m.items) same m.each;
      }

  make_rmat_el-Makes :
      0 < block_size
      → g.num_nodes ≡ 2 ^ g.scale
      → Shuffles shuffle
      → Makes (EndsBelow g.num_nodes) g.num_edges (make_rmat_el engine shuffle block_size g)
  unfolding make_rmat_el permute_ids
  make_rmat_el-Makes h nodes shuffles =
      let m =
        by_blocks-Makes (EndsBelow g.num_nodes)
          (λ seed count. some (rmat_edges g.scale (engine seed) count 0)) block_size g.num_edges
          g.num_edges 0 h (omega arith)
          (λ seed count. record {
            items = rmat_edges g.scale (engine seed) count 0;
            ends = refl;
            size = length-rmat_edges g.scale (engine seed) count 0;
            each = rw nodes (rmat_edges-EndsBelow g.scale (engine seed) count 0);
          }) in
      let (below, size) =
        shuffles g.num_nodes (range 0 g.num_nodes)
          (range-AllLt g.num_nodes 0 g.num_nodes (omega arith)) in
      let permutation = shuffle (range 0 g.num_nodes) in
      record {
        items =
            map (λ e. record { u = get_or permutation e.u 0; v = get_or permutation e.v 0 })
              m.items;
        ends = rw m.ends refl;
        size = length-map _ m.items ∙ omega (arith, m.size);
        each =
            permuted g.num_nodes permutation m.items below (size ∙ length-range 0 g.num_nodes)
              m.each;
      }

-- For every scale up to 30 the generator is made, and uniform or not it ends with as many edges as
-- the scale and the degree ask for, all between vertices below 2^scale, for blocks of any positive
-- size. Of every `tries` numbers of the engine one is accepted by the distribution, and shuffling
-- keeps the length and the range of an array.
pub generate_el-Makes :
    (engine : Engine) (shuffle : List ℕ → List ℕ) (block_size tries scale degree : ℕ)
    (uniform : Bool)
    → scale ≤ 30
    → 0 < block_size
    → IsLucky engine tries (2 ^ scale - 1)
    → Shuffles shuffle
    → (g : Generator) × (new_generator scale degree ≡ done g)
      × Makes
          (EndsBelow (2 ^ scale))
          (2 ^ scale * degree)
          (generate_el engine shuffle block_size tries uniform g)
unfolding new_generator generate_el
generate_el-Makes engine shuffle block_size tries scale degree uniform h some_block lucky shuffles =
    let (same, le) = scale_bound scale h in
    let g : Generator = record {
      scale = scale;
      num_nodes = 2 ^ scale;
      num_edges = 2 ^ scale * degree;
    } in
    let fits : ltb (2 ^ 31 - 1) (2 ^ scale) ≡ false = ground arith in
    (
      g,
      rw fits refl,
      elim (Bool-cases uniform) [
        | inl yes_ ↦ rw yes_ (
            make_uniform_el-Makes engine shuffle block_size tries g some_block (pow_pos scale)
              (omega arith) lucky)
        | inr no_ ↦
            rw no_ (make_rmat_el-Makes engine shuffle block_size tries g some_block refl shuffles)
      ],
    )

-- Each weight that InsertWeights writes is one of 1 .. 255.
pub insert_weights-Makes :
    (engine : Engine) (block_size tries el_size : ℕ)
    → 0 < block_size
    → IsLucky engine tries 254
    → Makes
        (λ w. (1 ≤ w) × (w ≤ 255))
        (el_size - 0)
        (insert_weights engine block_size tries el_size)
unfolding insert_weights
insert_weights-Makes engine block_size tries el_size h lucky =
    by_blocks-Makes (λ w. (1 ≤ w) × (w ≤ 255))
      (λ seed count. block_weights tries (dist 254) (engine seed) count 0) block_size el_size
      el_size 0 h (omega arith) (λ seed count. block_weights-Makes engine tries seed count 0 lucky)
