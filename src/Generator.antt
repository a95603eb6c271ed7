-- ===== src/Generator.antt =====
-- UniDist and Generator of src/generator.h for 32-bit vertices and weights.
pub mod Draws
pub mod Blocks
pub mod EdgeLists
use gapbs_bfs_experiment.Base.{
  and_then, ℕ, zero, suc, ◌+◌, ◌-◌, ◌*◌, ◌/◌, ◌%◌, ◌^◌, min, Bool, true, false, not, ◌&&◌, Option,
  none, some, List, [], ◌∷◌, ◌++◌, map, get_or, range, if◌then◌else◌, ltb, leb, ◌==◌, negsuc, Text,
  codes, decimal, Exit, done, exits,
}
use gapbs_bfs_experiment.Graph.{Graph, out_degree}
use gapbs_bfs_experiment.Builder.{EdgePair}

abbrev pub k_rand_seed : ℕ
k_rand_seed = 27491095

abbrev pub word : ℕ → ℕ
word n = n % 2 ^ 32

-- A random engine: `draw seed i` is what its call number `i` gives after seed(seed).
abbrev pub Engine : Type 0
Engine = ℕ → ℕ → ℕ

pub record UniDist : Type 0 where
  pub no_mod : Bool
  pub modulus : ℕ
  pub cutoff : ℕ

-- `rng_max` is rng_.max(); the three members are unsigned 32-bit numbers.
unfoldable pub new_uni_dist : ℕ → ℕ → UniDist
new_uni_dist rng_max max_value =
    let modulus = word (max_value + 1) in
    let remainder_sub_1 = word (rng_max % modulus) in
    record {
      no_mod = rng_max == max_value;
      modulus = modulus;
      cutoff = if remainder_sub_1 == modulus - 1 then 0 else word (rng_max - remainder_sub_1);
    }

-- The loop that draws again; `fuel` bounds the draws, and the result has the next call's number.
unfoldable pub draw_below : ℕ → ℕ → (ℕ → ℕ) → ℕ → Option (ℕ × ℕ)
draw_below zero cutoff draws i = none
draw_below (suc fuel) cutoff draws i =
    let again = draw_below fuel cutoff draws (suc i) in
    if leb cutoff (word (draws i)) then again else some (word (draws i), suc i)

abbrev pub reduced : ℕ → Option (ℕ × ℕ) → Option (ℕ × ℕ)
reduced modulus none = none
reduced modulus (some (n, i)) = some (n % modulus, i)

-- operator()
unfoldable pub draw : ℕ → UniDist → (ℕ → ℕ) → ℕ → Option (ℕ × ℕ)
draw fuel d draws i =
    if d.no_mod
    then some (word (draws i), suc i)
    else if d.cutoff == 0
    then some (word (draws i) % d.modulus, suc i)
    else reduced d.modulus (draw_below fuel d.cutoff draws i)

pub record Generator : Type 0 where
  pub scale : ℕ
  pub num_nodes : ℕ
  pub num_edges : ℕ

-- A scale of 63 or more shifts out of a 64-bit number in the source.
unfoldable pub new_generator : ℕ → ℕ → Exit Generator
new_generator scale degree =
    let num_nodes = 2 ^ scale in
    if ltb (2 ^ 31 - 1) num_nodes
    then exits (negsuc 30) (
        (codes "NodeID type (max: "
          ++ (decimal (2 ^ 31 - 1) ++ (codes ") too small to hold " ++ decimal num_nodes)))
        ∷ codes
            "Recommend changing NodeID (typedef'd in src/benchmark.h) to a wider type and recompiling"
        ∷ [])
    else done (record { scale = scale; num_nodes = num_nodes; num_edges = num_nodes * degree })

-- The parallel loop over blocks: block number `b` draws from the engine seeded with its number.
-- `fuel` bounds the blocks.
unfoldable pub by_blocks {ℓ} :
    {A : Type ℓ} → (ℕ → ℕ → Option (List A)) → ℕ → ℕ → ℕ → ℕ → Option (List A)
by_blocks body block_size total zero block = some []
by_blocks body block_size total (suc fuel) block =
    let here = body (k_rand_seed + block / block_size) (min (block + block_size) total - block) in
    let behind = by_blocks body block_size total fuel (block + block_size) in
    let both = and_then here λ xs. and_then behind λ ys. some (xs ++ ys) in
    if ltb block total then both else some []

-- The edges of one block, which take two draws each; the first one is taken for the source.
unfoldable pub uniform_edges : ℕ → UniDist → (ℕ → ℕ) → ℕ → ℕ → Option (List EdgePair)
uniform_edges tries d draws zero i = some []
uniform_edges tries d draws (suc count) i = and_then (draw tries d draws i) λ (u, j).
    and_then (draw tries d draws j) λ (v, k).
      and_then (uniform_edges tries d draws count k) λ es. some (record { u = u; v = v } ∷ es)

unfoldable pub make_uniform_el : Engine → ℕ → ℕ → Generator → Option (List EdgePair)
make_uniform_el engine block_size tries g =
    let d = new_uni_dist (2 ^ 32 - 1) (g.num_nodes - 1) in
    by_blocks (λ seed count. uniform_edges tries d (engine seed) count 0) block_size g.num_edges
      g.num_edges 0

-- 0.57, 0.19 and 0.19 of the greatest 32-bit number.
abbrev pub part_a : ℕ
part_a = 2448131358

abbrev pub part_b : ℕ
part_b = 816043786

abbrev pub part_c : ℕ
part_c = 816043786

abbrev pub bit : Bool → ℕ
bit true = 1
bit false = 0

-- The loop on depth, with one draw for a bit of src and of dst.
unfoldable pub rmat_edge : ℕ → (ℕ → ℕ) → ℕ → ℕ → ℕ → EdgePair
rmat_edge zero draws i src dst = record { u = src; v = dst }
rmat_edge (suc depth) draws i src dst =
    let rand_point = draws i in
    let low = ltb rand_point (part_a + part_b) in
    let dst_bit =
      if low then ltb part_a rand_point else ltb (part_a + part_b + part_c) rand_point in
    rmat_edge depth draws (suc i) (2 * src + bit (not low)) (2 * dst + bit dst_bit)

unfoldable pub rmat_edges : ℕ → (ℕ → ℕ) → ℕ → ℕ → List EdgePair
rmat_edges scale draws zero i = []
rmat_edges scale draws (suc count) i =
    rmat_edge scale draws i 0 0 ∷ rmat_edges scale draws count (i + scale)

-- `shuffle` stands for std::shuffle with its engine.
unfoldable pub permute_ids : (List ℕ → List ℕ) → Generator → List EdgePair → List EdgePair
permute_ids shuffle g el =
    let permutation = shuffle (range 0 g.num_nodes) in
    map (λ e. record { u = get_or permutation e.u 0; v = get_or permutation e.v 0 }) el

unfoldable pub make_rmat_el : Engine → (List ℕ → List ℕ) → ℕ → Generator → Option (List EdgePair)
make_rmat_el engine shuffle block_size g =
    and_then
      (by_blocks (λ seed count. some (rmat_edges g.scale (engine seed) count 0)) block_size
        g.num_edges g.num_edges 0)
      λ el. some (permute_ids shuffle g el)

unfoldable pub generate_el :
    Engine → (List ℕ → List ℕ) → ℕ → ℕ → Bool → Generator → Option (List EdgePair)
generate_el engine shuffle block_size tries uniform g =
    if uniform
    then make_uniform_el engine block_size tries g
    else make_rmat_el engine shuffle block_size g

-- The weights of one block.
unfoldable pub block_weights : ℕ → UniDist → (ℕ → ℕ) → ℕ → ℕ → Option (List ℕ)
block_weights tries d draws zero i = some []
block_weights tries d draws (suc count) i =
    and_then (draw tries d draws i)
      λ (w, j). and_then (block_weights tries d draws count j) λ ws. some ((w + 1) ∷ ws)

-- The weights that InsertWeights writes to an edge list of this size.
unfoldable pub insert_weights : Engine → ℕ → ℕ → ℕ → Option (List ℕ)
insert_weights engine block_size tries el_size =
    let d = new_uni_dist (2 ^ 32 - 1) 254 in
    by_blocks (λ seed count. block_weights tries d (engine seed) count 0) block_size el_size el_size
      0
