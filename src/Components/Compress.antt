-- ===== src/Components/Compress.antt =====
-- Compress of src/cc.cc on one vertex ends, and leaves it directly under its root.
use gapbs_bfs_experiment.Base.{
  ℕ, zero, suc, ◌<◌, ◌≡◌, ◌≢◌, refl, sym, ap, ◌∙◌, arith, false, Option, some, List, set,
  length-set, get_or-set, ◌==◌, ==→eq, if◌then◌else◌, Bool-cases, inl, inr,
}
use gapbs_bfs_experiment.Components.{comp_at, compress_loop, compress_vertex}
use gapbs_bfs_experiment.Components.Forest.{Roots}

-- A loop that ended with the same roots and `v` directly under its root.
pub record Squashed (n : ℕ) (r : ℕ → ℕ) (v : ℕ) (comp : List ℕ) (o : Option (List ℕ)) : Type 0 where
  pub comp' : List ℕ
  pub ends : o ≡ some comp'
  pub roots : Roots n comp' r
  pub flat : comp_at comp' v ≡ r v
  pub others : (i : ℕ) → i ≢ v → comp_at comp' i ≡ comp_at comp i

module _ {n : ℕ} {comp : List ℕ} {r : ℕ → ℕ} (t : Roots n comp r) (v : ℕ) (hv : v < n) where
  up_at :
      (i : ℕ)
      → comp_at (set comp v (comp_at comp (comp_at comp v))) i
        ≡ (if v == i then comp_at comp (comp_at comp v) else comp_at comp i)
  up_at i = get_or-set comp v i (comp_at comp (comp_at comp v)) 0 (omega (arith, t.size))

  up_same : (i : ℕ) → i < n → r (comp_at (set comp v (comp_at comp (comp_at comp v))) i) ≡ r i
  up_same i hi = elim (Bool-cases (v == i)) [
    | inl here ↦
        let p = comp_at comp v in
        let same : v ≡ i = ==→eq v i here in
        ap r (up_at i) ∙ rw here (t.same p (omega (arith, t.parent v hv)) ∙ t.same v hv ∙ ap r same)
    | inr other ↦ ap r (up_at i) ∙ rw other (t.same i hi)
  ]

  up_fixed : (i : ℕ) → i < n → comp_at (set comp v (comp_at comp (comp_at comp v))) i ≡ i → r i ≡ i
  up_fixed i hi e = elim (Bool-cases (v == i)) [
    | inl here ↦
        let p = comp_at comp v in
        let pv = t.parent v hv in
        let pp = t.parent p (omega arith) in
        let same : v ≡ i = ==→eq v i here in
        let top : comp_at comp v ≡ v = ground (arith, up_at i) in
        sym (ap r same) ∙ t.fixed v hv top ∙ same
    | inr other ↦ t.fixed i hi (ground (arith, up_at i))
  ]

  up_root : (i : ℕ) → i < n → comp_at (set comp v (comp_at comp (comp_at comp v))) (r i) ≡ r i
  up_root i hi = elim (Bool-cases (v == r i)) [
    | inl here ↦
        let same : v ≡ r i = ==→eq v (r i) here in
        let top : comp_at comp v ≡ v = ap (comp_at comp) same ∙ t.is_root i hi ∙ sym same in
        up_at (r i) ∙ rw here (ap (comp_at comp) top ∙ top ∙ same)
    | inr other ↦ up_at (r i) ∙ rw other (t.is_root i hi)
  ]

  step_up : Roots n (set comp v (comp_at comp (comp_at comp v))) r
  step_up =
      let p = comp_at comp v in
      let pv = t.parent v hv in
      let pp = t.parent p (omega arith) in
      record {
        size = length-set comp v (comp_at comp p) ∙ t.size;
        parent = λ i hi. ground (arith, up_at i, t.parent i hi);
        same = up_same;
        fixed = up_fixed;
        below = t.below;
        is_root = up_root;
      }

-- The loop of Compress on one vertex ends, and leaves it directly under its root.
compress_loop-Squashed :
    {n : ℕ} {r : ℕ → ℕ} (fuel v : ℕ) (comp : List ℕ)
    → Roots n comp r
    → v < n
    → comp_at comp v < fuel
    → Squashed n r v comp (compress_loop fuel v comp)
unfolding compress_loop
compress_loop-Squashed zero v comp t hv enough = absurd (omega arith)
compress_loop-Squashed {r} (suc fuel) v comp t hv enough =
    let p = comp_at comp v in
    let up = comp_at comp p in
    let pn = t.parent v hv in
    let pp = t.parent p (omega arith) in
    elim (Bool-cases (p == up)) [
      | inl top ↦
          let is_top : comp_at comp p ≡ p = sym (==→eq p up top) in
          let flat : p ≡ r v = sym (t.fixed p (omega arith) is_top) ∙ t.same v hv in
          rw top (record {
            comp' = comp;
            ends = refl;
            roots = t;
            flat = flat;
            others = λ i differ. refl;
          })
      | inr deeper ↦
          let next = set comp v up in
          let here : comp_at next v ≡ up = ground (arith, up_at t v hv v) in
          let ih = compress_loop-Squashed fuel v next (step_up t v hv) hv (ground (arith, here)) in
          rw deeper (record {
            comp' = ih.comp';
            ends = ih.ends;
            roots = ih.roots;
            flat = ih.flat;
            others = λ i differ. ih.others i differ ∙ up_at t v hv i ∙ rw (differs v i differ) refl;
          })
    ]
  where
    differs : (v i : ℕ) → i ≢ v → (v == i) ≡ false
    differs v i differ = ground (arith, differ)

pub compress_vertex-Squashed :
    {n : ℕ} {r : ℕ → ℕ} (v : ℕ) (comp : List ℕ)
    → Roots n comp r
    → v < n
    → Squashed n r v comp (compress_vertex v comp)
unfolding compress_vertex
compress_vertex-Squashed v comp t hv =
    compress_loop-Squashed (suc (comp_at comp v)) v comp t hv (omega arith)
