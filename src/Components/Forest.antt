-- ===== src/Components/Forest.antt =====
-- The trees that the array comp of src/cc.cc holds: what Link and Compress do to their roots.
use gapbs_bfs_experiment.Base.{
  ℕ, ◌≤◌, ◌<◌, min, max, ◌≡◌, refl, sym, ap, ◌∙◌, arith, List, length, set, length-set, get_or-set,
  ◌==◌, ==→eq, if◌then◌else◌, Bool-cases, inl, inr,
}
use gapbs_bfs_experiment.Components.{comp_at}

-- `r i` is the root of the tree of `i`: parents are smaller than their children.
pub record Roots (n : ℕ) (comp : List ℕ) (r : ℕ → ℕ) : Type 0 where
  pub size : length comp ≡ n
  pub parent : (i : ℕ) → i < n → comp_at comp i ≤ i
  pub same : (i : ℕ) → i < n → r (comp_at comp i) ≡ r i
  pub fixed : (i : ℕ) → i < n → comp_at comp i ≡ i → r i ≡ i
  pub below : (i : ℕ) → i < n → r i ≤ i
  pub is_root : (i : ℕ) → i < n → comp_at comp (r i) ≡ r i

-- The roots after the trees of `u` and `v` are joined under the smaller root.
abbrev pub merge : (ℕ → ℕ) → ℕ → ℕ → ℕ → ℕ
merge r u v x = if r x == max (r u) (r v) then min (r u) (r v) else r x

module _ {n : ℕ} {comp : List ℕ} {r : ℕ → ℕ} (t : Roots n comp r) where
  hook_at :
      (high low i : ℕ)
      → high < n
      → comp_at (set comp high low) i ≡ (if high == i then low else comp_at comp i)
  hook_at high low i h = get_or-set comp high i low 0 (omega (arith, t.size))

  -- A root `high` and a smaller vertex `low`.
  module _ (high low : ℕ) (h : high < n) (lt : low < high) (root : comp_at comp high ≡ high) where
    merged : (x : ℕ) → merge r high low x ≡ (if r x == high then r low else r x)
    merged x =
        let top = t.fixed high h root in
        let under = t.below low (omega arith) in
        let above : max (r high) (r low) ≡ high = omega arith in
        let least : min (r high) (r low) ≡ r low = omega arith in rw (above, least) refl

    hook_same :
        (i : ℕ) → i < n → merge r high low (comp_at (set comp high low) i) ≡ merge r high low i
    hook_same i hi =
        let at_low = merged low in
        let at_i = merged i in
        elim (Bool-cases (high == i)) [
          | inl here ↦
              let moved : comp_at (set comp high low) i ≡ low =
                ground (arith, hook_at high low i h) in
              let is : r i ≡ high = ap r (sym (==→eq high i here)) ∙ t.fixed high h root in
              rw moved (ground (arith, at_low, at_i, t.below low (omega arith)))
          | inr other ↦
              let kept : comp_at (set comp high low) i ≡ comp_at comp i =
                ground (arith, hook_at high low i h) in
              rw kept (rw (t.same i hi) refl)
        ]

    hook_fixed : (i : ℕ) → i < n → comp_at (set comp high low) i ≡ i → merge r high low i ≡ i
    hook_fixed i hi e = elim (Bool-cases (high == i)) [
      | inl here ↦ absurd (ground (arith, hook_at high low i h))
      | inr other ↦
          let kept : comp_at comp i ≡ i = ground (arith, hook_at high low i h) in
          ground (arith, merged i, t.fixed i hi kept)
    ]

    hook_root :
        (i : ℕ) → i < n → comp_at (set comp high low) (merge r high low i) ≡ merge r high low i
    hook_root i hi =
        let under = t.below low (omega arith) in
        elim (Bool-cases (r i == high)) [
          | inl joins ↦
              let is : merge r high low i ≡ r low = ground (arith, merged i) in
              rw is (ground (arith, hook_at high low (r low) h, t.is_root low (omega arith)))
          | inr stays ↦
              let is : merge r high low i ≡ r i = ground (arith, merged i) in
              rw is (ground (arith, hook_at high low (r i) h, t.is_root i hi))
        ]

    pub hook-Roots : Roots n (set comp high low) (merge r high low)
    hook-Roots = record {
      size = length-set comp high low ∙ t.size;
      parent = λ i hi. ground (arith, hook_at high low i h, t.parent i hi);
      same = hook_same;
      fixed = hook_fixed;
      below = λ i hi. ground (arith, t.below i hi);
      is_root = hook_root;
    }
