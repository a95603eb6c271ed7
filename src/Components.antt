-- ===== src/Components.antt =====
-- Connected components: Link, Compress and Afforest of src/cc.cc, and Shiloach-Vishkin of src/cc_sv.cc,
-- in the serial order of the parallel loops.
pub mod Forest
pub mod Link
pub mod Compress
pub mod Offsets
pub mod Rounds
pub mod Sampling
pub mod Afforest
pub mod Hooking
use gapbs_bfs_experiment.Base.{
  and_then, ℕ, zero, suc, ◌+◌, ◌-◌, Bool, true, false, Option, none, some, List, [], ◌∷◌, get_or,
  set, range, ltb, ◌==◌, if◌then◌else◌, sum,
}
use gapbs_bfs_experiment.Graph.{Graph, out_neigh, in_neigh, vertices}

-- comp[n]
abbrev pub comp_at : List ℕ → ℕ → ℕ
comp_at comp n = get_or comp n 0

-- The loop of Link on p1 and p2; in the serial order compare_and_swap finds what was just read.
unfoldable pub link_loop : ℕ → ℕ → ℕ → List ℕ → Option (List ℕ)
link_loop zero p1 p2 comp = none
link_loop (suc fuel) p1 p2 comp =
    let high = if ltb p2 p1 then p1 else p2 in
    let low = p1 + p2 - high in
    let p_high = comp_at comp high in
    let again = link_loop fuel (comp_at comp (comp_at comp high)) (comp_at comp low) comp in
    if p1 == p2
    then some comp
    else if p_high == low
    then some comp
    else if p_high == high
    then some (set comp high low)
    else again

-- A round that goes on makes p1 + p2 smaller.
unfoldable pub link : ℕ → ℕ → List ℕ → Option (List ℕ)
link u v comp =
    link_loop (suc (comp_at comp u + comp_at comp v)) (comp_at comp u) (comp_at comp v) comp

-- while (comp[n] != comp[comp[n]])
unfoldable pub compress_loop : ℕ → ℕ → List ℕ → Option (List ℕ)
compress_loop zero n comp = none
compress_loop (suc fuel) n comp =
    let up = comp_at comp (comp_at comp n) in
    let again = compress_loop fuel n (set comp n up) in
    if comp_at comp n == up then some comp else again

unfoldable pub compress_vertex : ℕ → List ℕ → Option (List ℕ)
compress_vertex n comp = compress_loop (suc (comp_at comp n)) n comp

-- A loop over vertices.
unfoldable pub for_each : (ℕ → List ℕ → Option (List ℕ)) → List ℕ → List ℕ → Option (List ℕ)
for_each body [] comp = some comp
for_each body (u ∷ us) comp = and_then (body u comp) (λ comp'. for_each body us comp')

unfoldable pub compress : Graph → List ℕ → Option (List ℕ)
compress g comp = for_each compress_vertex (vertices g) comp

unfoldable pub init_comp : Graph → List ℕ
init_comp g = range 0 g.num_nodes

-- The loop over neighbours that links the first one and breaks.
abbrev pub link_first : ℕ → List ℕ → List ℕ → Option (List ℕ)
link_first u [] comp = some comp
link_first u (v ∷ vs) comp = link u v comp

unfoldable pub sample_vertex : Graph → ℕ → ℕ → List ℕ → Option (List ℕ)
sample_vertex g r u comp = link_first u (out_neigh g u r) comp

unfoldable pub sample_round : Graph → ℕ → List ℕ → Option (List ℕ)
sample_round g r comp =
    and_then (for_each (sample_vertex g r) (vertices g) comp) (λ c. compress g c)

-- Rounds r, r + 1, ..., as many as `count`.
unfoldable pub sample_rounds : Graph → ℕ → ℕ → List ℕ → Option (List ℕ)
sample_rounds g r zero comp = some comp
sample_rounds g r (suc count) comp =
    and_then (sample_round g r comp) (λ c. sample_rounds g (suc r) count c)

unfoldable pub link_all : ℕ → List ℕ → List ℕ → Option (List ℕ)
link_all u vs comp = for_each (λ v c. link u v c) vs comp

-- A vertex of the last phase, which passes over the component `c`.
unfoldable pub finish_vertex : Graph → ℕ → ℕ → ℕ → List ℕ → Option (List ℕ)
finish_vertex g neighbor_rounds c u comp =
    let out = link_all u (out_neigh g u neighbor_rounds) comp in
    let both = and_then out (λ comp'. link_all u (in_neigh g u 0) comp') in
    if comp_at comp u == c then some comp else if g.directed then both else out

-- `sample` stands for SampleFrequentElement, which draws at random.
unfoldable pub afforest : (List ℕ → ℕ) → Graph → ℕ → Option (List ℕ)
afforest sample g neighbor_rounds =
    and_then (sample_rounds g 0 neighbor_rounds (init_comp g)) (λ comp.
      and_then (for_each (finish_vertex g neighbor_rounds (sample comp)) (vertices g) comp)
        (λ linked. compress g linked))

-- One iteration of Shiloach-Vishkin: whether it changed a label, and the labels.
pub record Pass : Type 0 where
  pub change : Bool
  pub comp : List ℕ

unfoldable pub hook_edge : ℕ → ℕ → Pass → Pass
hook_edge u v p =
    let comp_u = comp_at p.comp u in
    let comp_v = comp_at p.comp v in
    let high_comp = if ltb comp_v comp_u then comp_u else comp_v in
    let low_comp = comp_u + comp_v - high_comp in
    if comp_u == comp_v
    then p
    else if high_comp == comp_at p.comp high_comp
    then record { change = true; comp = set p.comp high_comp low_comp }
    else p

unfoldable pub hook_edges : ℕ → List ℕ → Pass → Pass
hook_edges u [] p = p
hook_edges u (v ∷ vs) p = hook_edges u vs (hook_edge u v p)

unfoldable pub hook_vertices : Graph → List ℕ → Pass → Pass
hook_vertices g [] p = p
hook_vertices g (u ∷ us) p = hook_vertices g us (hook_edges u (out_neigh g u 0) p)

-- while (change), from an iteration on.
unfoldable pub sv_loop : Graph → ℕ → List ℕ → Option (List ℕ)
sv_loop g zero comp = none
sv_loop g (suc fuel) comp =
    let p = hook_vertices g (vertices g) (record { change = false; comp = comp }) in
    and_then (compress g p.comp)
      (λ c. let again = sv_loop g fuel c in if p.change then again else some c)

-- An iteration that changes a label makes the sum of the labels smaller.
unfoldable pub shiloach_vishkin : Graph → Option (List ℕ)
shiloach_vishkin g = sv_loop g (suc (sum (init_comp g))) (init_comp g)
