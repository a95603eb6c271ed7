-- ===== src/Components/Hooking.antt =====
-- Shiloach-Vishkin (src/cc_sv.cc) ends, with the labels that Afforest gives.
use gapbs_bfs_experiment.Base.{
  and_then, ℕ, zero, suc, ◌+◌, ◌-◌, ◌≤◌, ◌<◌, ◌≡◌, refl, sym, ap, ◌∙◌, subst, arith, true, false,
  some, List, [], ◌∷◌, elem, length, get_or, set, sum, ltb, ◌==◌, ==→eq, eq→==, if◌then◌else◌,
  Bool-cases, inl, inr,
}
use gapbs_bfs_experiment.Graph.{Graph, Edge, IsValid, out_neigh, vertices}
use gapbs_bfs_experiment.Components.Forest.{merge, hook-Roots}
use gapbs_bfs_experiment.Components.Link.{high_of, order-Ordered, merge_like}
use gapbs_bfs_experiment.Components.Rounds.{
  Meets, meets_trans, meets_sym, Sound, merge_meets, meets_joined,
}
use gapbs_bfs_experiment.Components.Sampling.{vertex_lt, vertex_elem, compress-Flattened, out_meets}
use gapbs_bfs_experiment.Components.Afforest.{Labels, init-Sound, flat-Labels}
use gapbs_bfs_experiment.Components.{
  comp_at, compress, init_comp, Pass, hook_edge, hook_edges, hook_vertices, sv_loop,
  shiloach_vishkin,
}

sum-set : (xs : List ℕ) (i v : ℕ) → i < length xs → sum (set xs i v) + get_or xs i 0 ≡ sum xs + v
sum-set [] i v h = elim h [ ]
sum-set (x ∷ xs) zero v h = omega arith
sum-set (x ∷ xs) (suc i) v h = omega (arith, sum-set xs i v (omega arith))

sum-le :
    (xs ys : List ℕ)
    → length xs ≡ length ys
    → ((i : ℕ) → i < length xs → get_or xs i 0 ≤ get_or ys i 0)
    → sum xs ≤ sum ys
sum-le [] [] len le = omega arith
sum-le [] (y ∷ ys) len le = absurd (omega arith)
sum-le (x ∷ xs) [] len le = absurd (omega arith)
sum-le (x ∷ xs) (y ∷ ys) len le =
    omega (arith, le 0 (omega arith), sum-le xs ys (omega arith) (λ i lt. le (suc i) (omega arith)))

module _ (g : Graph) (valid : IsValid g) where
  -- A root hooked under a smaller label of a vertex that it meets.
  hook-Sound :
      (comp : List ℕ) (r : ℕ → ℕ) (u v : ℕ)
      → Sound g comp r
      → u < g.num_nodes
      → v < g.num_nodes
      → Meets g u v
      → (comp_at comp u == comp_at comp v) ≡ false
      → let high = high_of (comp_at comp u) (comp_at comp v) in
        let low = comp_at comp u + comp_at comp v - high in
        comp_at comp high ≡ high
        → ((q : ℕ → ℕ) × Sound g (set comp high low) q) × (sum (set comp high low) < sum comp)
  hook-Sound comp r u v s hu hv meet differ root =
      let cu = comp_at comp u in
      let cv = comp_at comp v in
      let high = high_of cu cv in
      let low = cu + cv - high in
      let o = order-Ordered r cu cv differ in
      let cun : cu < g.num_nodes = omega (arith, s.roots.parent u hu) in
      let cvn : cv < g.num_nodes = omega (arith, s.roots.parent v hv) in
      let hn = o.in_range g.num_nodes cun cvn in
      let ln : low < g.num_nodes = omega (arith, o.lower) in
      let across : Meets g (r cu) (r cv) =
        subst (λ x. Meets g x (r cv)) (sym (s.roots.same u hu))
          (subst (Meets g (r u)) (sym (s.roots.same v hv))
            (meets_trans (meets_sym (s.sound u hu)) (meets_trans meet (s.sound v hv)))) in
      (
        (
          merge r high low,
          record {
            roots = hook-Roots s.roots high low hn o.lower root;
            sound = λ x hx.
                subst (Meets g x) (sym (merge_like r high low cu cv x o.above o.least))
                  (merge_meets r cu cv x (s.sound x hx) across);
          },
        ),
        omega (arith, sum-set comp high low (omega (arith, s.roots.size)), o.lower),
      )

  module _ (comp0 : List ℕ) (r0 : ℕ → ℕ) (s0 : Sound g comp0 r0)
      (flat : (u : ℕ) → u < g.num_nodes → comp_at comp0 u ≡ r0 u) where
    -- A pass that has changed nothing, and has then found one label at both ends of what it has
    -- seen, or one that has made the sum of the labels smaller.
    data Stage (Seen : Type 0) : Pass → Type 0 where
      still : Seen → Stage Seen (record { change = false; comp = comp0 })
      moved :
          (comp : List ℕ) (q : ℕ → ℕ)
          → Sound g comp q
          → sum comp < sum comp0
          → Stage Seen (record { change = true; comp = comp })

    weaken : {A B : Type 0} {p : Pass} → (A → B) → Stage A p → Stage B p
    weaken f (still a) = still (f a)
    weaken f (moved comp q s less) = moved comp q s less

    label_root : (u : ℕ) → u < g.num_nodes → comp_at comp0 (comp_at comp0 u) ≡ comp_at comp0 u
    label_root u hu = ap (comp_at comp0) (flat u hu) ∙ s0.roots.is_root u hu ∙ sym (flat u hu)

    high_root :
        (u v : ℕ)
        → u < g.num_nodes
        → v < g.num_nodes
        → let high = high_of (comp_at comp0 u) (comp_at comp0 v) in high ≡ comp_at comp0 high
    high_root u v hu hv = elim (Bool-cases (ltb (comp_at comp0 v) (comp_at comp0 u))) [
      | inl first ↦ rw first (sym (label_root u hu))
      | inr second ↦ rw second (sym (label_root v hv))
    ]

    hook_edge-Stage :
        {Seen : Type 0} {p : Pass} (u v : ℕ)
        → u < g.num_nodes
        → v < g.num_nodes
        → Meets g u v
        → Stage Seen p
        → Stage (Seen × (comp_at comp0 u ≡ comp_at comp0 v)) (hook_edge u v p)
    unfolding hook_edge
    hook_edge-Stage u v hu hv meet (still seen) =
        let cu = comp_at comp0 u in
        let cv = comp_at comp0 v in
        let high = high_of cu cv in
        elim (Bool-cases (cu == cv)) [
          | inl one ↦ rw one (still (seen, ==→eq cu cv one))
          | inr two ↦
              let root = high_root u v hu hv in
              let test : high == comp_at comp0 high ≡ true = eq→== high (comp_at comp0 high) root in
              let (qs, less) = hook-Sound comp0 r0 u v s0 hu hv meet two (sym root) in
              rw (two, test) (moved (set comp0 high (cu + cv - high)) qs.0 qs.1 less)
        ]
    hook_edge-Stage u v hu hv meet (moved comp q s small) =
        let cu = comp_at comp u in
        let cv = comp_at comp v in
        let high = high_of cu cv in
        elim (Bool-cases (cu == cv)) [
          | inl one ↦ rw one (moved comp q s small)
          | inr two ↦ elim (Bool-cases (high == comp_at comp high)) [
            | inl root ↦
                let top = sym (==→eq high (comp_at comp high) root) in
                let (qs, less) = hook-Sound comp q u v s hu hv meet two top in
                rw (two, root) (moved (set comp high (cu + cv - high)) qs.0 qs.1 (omega arith))
            | inr inner ↦ rw (two, inner) (moved comp q s small)
          ]
        ]

    hook_edges-Stage :
        (u : ℕ) (vs : List ℕ) {Seen : Type 0} {p : Pass}
        → u < g.num_nodes
        → ((v : ℕ) → elem v vs ≡ true → (v < g.num_nodes) × Meets g u v)
        → Stage Seen p
        → Stage
            (Seen × ((v : ℕ) → elem v vs ≡ true → comp_at comp0 u ≡ comp_at comp0 v))
            (hook_edges u vs p)
    unfolding hook_edges
    hook_edges-Stage u [] hu meet st = weaken (λ seen. (seen, λ v h. cc)) st
    hook_edges-Stage u (v ∷ vs) hu meet st =
        let (hv, m) = meet v (ground arith) in
        let first = hook_edge-Stage u v hu hv m st in
        let rest = hook_edges-Stage u vs hu (λ w h. meet w (ground arith)) first in
        weaken
          (λ all. (
            all.0.0,
            λ w h. elim (Bool-cases (w == v)) [
              | inl same ↦ all.0.1 ∙ ap (comp_at comp0) (sym (==→eq w v same))
              | inr other ↦ all.1 w (ground arith)
            ],
          ))
          rest

    hook_vertices-Stage :
        (us : List ℕ) {Seen : Type 0} {p : Pass}
        → ((u : ℕ) → elem u us ≡ true → u < g.num_nodes)
        → Stage Seen p
        → Stage
            (Seen × ((u v : ℕ) → elem u us ≡ true → Edge g u v → comp_at comp0 u ≡ comp_at comp0 v))
            (hook_vertices g us p)
    unfolding hook_vertices
    hook_vertices-Stage [] inside st = weaken (λ seen. (seen, λ u v h. cc)) st
    hook_vertices-Stage (u ∷ us) inside st =
        let hu = inside u (ground arith) in
        let first =
          hook_edges-Stage u (out_neigh g u 0) hu (λ v h. out_meets g valid u 0 v hu h) st in
        let rest = hook_vertices-Stage us (λ w h. inside w (ground arith)) first in
        weaken
          (λ all. (
            all.0.0,
            λ w v h edge. elim (Bool-cases (w == u)) [
              | inl same ↦
                  let is : w ≡ u = ==→eq w u same in
                  ap (comp_at comp0) is ∙ all.0.1 v (subst (λ x. Edge g x v) is edge)
              | inr other ↦ all.1 w v (ground arith) edge
            ],
          ))
          rest

    -- The end of an iteration, with what the next one gives where it changed a label.
    next_iteration :
        (fuel : ℕ) {p : Pass}
        → ((comp : List ℕ) (q : ℕ → ℕ)
            → Sound g comp q
            → ((u : ℕ) → u < g.num_nodes → comp_at comp u ≡ q u)
            → sum comp < sum comp0
            → (c : List ℕ) × (sv_loop g fuel comp ≡ some c) × Labels g c)
        → Stage ((u v : ℕ) → u < g.num_nodes → Edge g u v → comp_at comp0 u ≡ comp_at comp0 v) p
        → (c : List ℕ) × (and_then
              (compress g p.comp)
              (λ flatter. if p.change then sv_loop g fuel flatter else some flatter)
            ≡ some c)
          × Labels g c
    next_iteration fuel later (still seen) =
        let f = compress-Flattened g comp0 r0 s0.roots in
        let edges = λ (u v : ℕ) (hu : u < g.num_nodes) (e : Edge g u v).
          let hv = (out_meets g valid u 0 v hu e).0 in
          sym (flat u hu) ∙ seen u v hu e ∙ flat v hv in
        (
          f.comp',
          rw f.ends refl,
          flat-Labels g valid f.comp' r0 f.roots (λ u hu. f.flat u (vertex_elem g u hu)) s0.sound
              (λ u w m. meets_joined r0 edges m),
        )
    next_iteration fuel later (moved comp q s less) =
        let f = compress-Flattened g comp q s.roots in
        let flat' = λ (u : ℕ) (hu : u < g.num_nodes). f.flat u (vertex_elem g u hu) in
        let smaller : sum f.comp' ≤ sum comp =
          sum-le f.comp' comp (f.roots.size ∙ sym s.roots.size) λ i lt.
            let hi : i < g.num_nodes = omega (arith, f.roots.size) in
            let up : comp_at comp i < g.num_nodes = omega (arith, s.roots.parent i hi) in
            omega (arith, flat' i hi, s.roots.same i hi, s.roots.below (comp_at comp i) up) in
        let (c, ends, labels) =
          later f.comp' q (record { roots = f.roots; sound = s.sound }) flat' (omega arith) in
        (c, rw f.ends ends, labels)

  sv_loop-Labels :
      (fuel : ℕ) (comp : List ℕ) (r : ℕ → ℕ)
      → Sound g comp r
      → ((u : ℕ) → u < g.num_nodes → comp_at comp u ≡ r u)
      → sum comp < fuel
      → (c : List ℕ) × (sv_loop g fuel comp ≡ some c) × Labels g c
  unfolding sv_loop
  sv_loop-Labels zero comp r s flat enough = absurd (omega arith)
  sv_loop-Labels (suc fuel) comp r s flat enough =
      let nothing : Stage comp r s flat (Unit {0}) (record { change = false; comp = comp }) =
        still tt in
      let pass = hook_vertices-Stage comp r s flat (vertices g) (vertex_lt g) nothing in
      next_iteration comp r s flat fuel
        (λ c q t flat' less. sv_loop-Labels fuel c q t flat' (omega arith))
        (weaken comp r s flat (λ all u v hu e. all.1 u v (vertex_elem g u hu) e) pass)

  -- On a valid graph Shiloach-Vishkin ends, and labels each vertex with the least vertex that it
  -- meets along edges in either direction, so that two vertices have one label exactly if they meet.
  pub shiloach_vishkin-Labels : (c : List ℕ) × (shiloach_vishkin g ≡ some c) × Labels g c
  unfolding shiloach_vishkin
  shiloach_vishkin-Labels =
      sv_loop-Labels (suc (sum (init_comp g))) (init_comp g) (λ x. x) (init-Sound g valid)
        (init-Sound g valid).roots.is_root (omega arith)
