-- ===== src/Bfs/BottomUp/Scan.antt =====
-- BUStep of src/bfs.cc visits the vertices with an incoming edge from the front, and no others.
use gapbs_bfs_experiment.Base.{
  ℕ, ◌+◌, ◌≤◌, ◌<◌, ◌≡◌, refl, sym, ◌∙◌, arith, true, false, not, ◌&&◌, Option, none, some, List,
  [], ◌∷◌, foldl, length, elem, range, get_or-set, length-set, elem-range, range-Distinct,
  range-AllLt, Distinct, AllLt, elem-lt, inl, inr, ◌⊎◌, Bool-cases, ◌==◌, ℤ, pos, minus_one, is_neg,
}
use gapbs_bfs_experiment.Bitmap.{Bitmap, get_bit, reset}
use gapbs_bfs_experiment.Bitmap.Bits.{
  size, get_bit-set_bit, get_bit-reset, size-set_bit, size-reset,
}
use gapbs_bfs_experiment.Graph.{Graph, in_neigh, IsValid}
use gapbs_bfs_experiment.Bfs.Parent.{parent_at, visited, unvisited, unvisited-set, visited-lt}
use gapbs_bfs_experiment.Bfs.Level.{Level}
use gapbs_bfs_experiment.Bfs.BottomUp.{Sweep, find_parent, adopt, bu_visit, bu_step}

find_parent-some :
    (front : Bitmap) (vs : List ℕ) (v : ℕ)
    → find_parent front vs ≡ some v
    → (get_bit front v ≡ true) × (elem v vs ≡ true)
unfolding find_parent
find_parent-some front [] v h = cc
find_parent-some front (x ∷ vs) v h = ground (arith, find_parent-some front vs v)

find_parent-none :
    (front : Bitmap) (vs : List ℕ) (v : ℕ)
    → find_parent front vs ≡ none
    → elem v vs ≡ true
    → get_bit front v ≡ false
unfolding find_parent
find_parent-none front [] v h m = cc
find_parent-none front (x ∷ vs) v h m = ground (arith, find_parent-none front vs v)

Option-split : (o : Option ℕ) → (o ≡ none) ⊎ ((v : ℕ) × (o ≡ some v))
Option-split none = inl refl
Option-split (some v) = inr (v, refl)

module _ (g : Graph) (front : Bitmap) where
  -- What the sweep has done so far, `left` being the vertices that it has not come to.
  record Swept (before : List ℤ) (left : List ℕ) (s : Sweep) : Type 0 where
    same : length s.parent ≡ length before
    bits : g.num_nodes ≤ size s.next
    kept : (v : ℕ) → visited before v ≡ true → parent_at s.parent v ≡ parent_at before v
    fresh :
        (v : ℕ)
        → visited before v ≡ false
        → visited s.parent v ≡ true
        → (u : ℕ) × (parent_at s.parent v ≡ pos u)
          × (get_bit front u ≡ true)
          × (elem u (in_neigh g v 0) ≡ true)
    ahead : (v : ℕ) → elem v left ≡ true → visited s.parent v ≡ visited before v
    full :
        (u v : ℕ)
        → v < g.num_nodes
        → elem v left ≡ false
        → get_bit front u ≡ true
        → elem u (in_neigh g v 0) ≡ true
        → visited s.parent v ≡ true
    news : (v : ℕ) → get_bit s.next v ≡ (visited s.parent v && not (visited before v))
    count : s.awake_count + unvisited s.parent ≡ unvisited before

  module _ {before : List ℤ} {x : ℕ} {left : List ℕ} {s : Sweep} (inside : x < g.num_nodes)
      (room : length before ≡ g.num_nodes) (once : elem x left ≡ false)
      (w : Swept before (x ∷ left) s) where
    Swept-skip : visited s.parent x ≡ true → Swept before left s
    Swept-skip seen = record {
      same = w.same;
      bits = w.bits;
      kept = w.kept;
      fresh = w.fresh;
      ahead = λ v m. ground (arith, w.ahead v);
      full = λ u v lt m f e. ground (arith, w.full u v lt);
      news = w.news;
      count = w.count;
    }

    Swept-lonely : find_parent front (in_neigh g x 0) ≡ none → Swept before left s
    Swept-lonely nobody = record {
      same = w.same;
      bits = w.bits;
      kept = w.kept;
      fresh = w.fresh;
      ahead = λ v m. ground (arith, w.ahead v);
      full =
          λ u v lt m f e. ground (arith, w.full u v lt, find_parent-none front (in_neigh g x 0) u);
      news = w.news;
      count = w.count;
    }

    Swept-adopt :
        (p : ℕ)
        → find_parent front (in_neigh g x 0) ≡ some p
        → visited s.parent x ≡ false
        → Swept before left (adopt x (some p) s)
    unfolding adopt
    Swept-adopt p found new =
        let (lit, from) = find_parent-some front (in_neigh g x 0) p found in
        let here : x < length s.parent = omega (arith, w.same) in
        let old : visited before x ≡ false = ground (arith, w.ahead x) in
        let look = λ (v : ℕ). get_or-set s.parent x v (pos p) minus_one in
        record {
          same = omega (arith, w.same, length-set s.parent x (pos p));
          bits = omega (arith, w.bits, size-set_bit s.next x);
          kept = λ v h. ground (arith, w.kept v, look v);
          fresh = λ v h m. elim (Bool-cases (x == v)) [
            | inl e ↦ (p, ground (arith, look v), lit, ground arith)
            | inr e ↦
                let (u, entry, l, i) = w.fresh v h (ground (arith, look v)) in
                (u, ground (arith, look v), l, i)
          ];
          ahead = λ v m. ground (arith, w.ahead v, look v);
          full = λ u v lt m f e. ground (arith, w.full u v lt, look v);
          news = λ v. ground (arith, w.news v, look v, get_bit-set_bit s.next x v, w.bits);
          count = ground (arith, w.count, unvisited-set s.parent x p);
        }

    Swept-bu_visit : Swept before left (bu_visit g front s x)
    unfolding bu_visit
    Swept-bu_visit = elim (Bool-cases (is_neg (parent_at s.parent x))) [
      | inr seen ↦ rw seen (Swept-skip (rw seen))
      | inl new ↦ rw new elim (Option-split (find_parent front (in_neigh g x 0))) [
        | inl nobody ↦ rw (nobody, adopt) (Swept-lonely nobody)
        | inr (p, found) ↦ rw found (Swept-adopt p found (rw new))
      ]
    ]

  Swept-all :
      (before : List ℤ) (left : List ℕ) (s : Sweep)
      → length before ≡ g.num_nodes
      → AllLt g.num_nodes left
      → Distinct left
      → Swept before left s
      → Swept before [] (foldl (bu_visit g front) s left)
  Swept-all before [] s room low once w = w
  Swept-all before (x ∷ left) s room low once w =
      Swept-all before left (bu_visit g front s x) room low.1 once.1
        (Swept-bu_visit low.0 room once.0 w)

  Swept-start :
      (before : List ℤ) (next : Bitmap)
      → length before ≡ g.num_nodes
      → g.num_nodes ≤ size next
      → Swept before
          (range 0 g.num_nodes)
          (record { parent = before; next = reset next; awake_count = 0 })
  Swept-start before next room bits = record {
    same = refl;
    bits = omega (arith, size-reset next);
    kept = λ v h. refl;
    fresh = λ v h m. cc;
    ahead = λ v m. refl;
    full = λ u v lt m f e. absurd (ground (arith, elem-range v 0 g.num_nodes));
    news = λ v. ground (arith, get_bit-reset next v);
    count = omega arith;
  }

-- One bottom-up step follows every edge from the front and no other edge, marks the vertices that it
-- visits in `next`, and counts them. The front may hold any visited vertices.
pub bu_step-Level :
    (g : Graph) (before : List ℤ) (front next : Bitmap)
    → IsValid g
    → length before ≡ g.num_nodes
    → g.num_nodes ≤ size next
    → ((u : ℕ) → get_bit front u ≡ true → visited before u ≡ true)
    → let s = bu_step g before front next in
      Level g before s.parent (get_bit front) (get_bit s.next)
      × (g.num_nodes ≤ size s.next)
      × (s.awake_count + unvisited s.parent ≡ unvisited before)
unfolding bu_step
bu_step-Level g before front next valid room bits stale =
    let w =
      Swept-all g front before (range 0 g.num_nodes) _ room
        (range-AllLt g.num_nodes 0 g.num_nodes (omega arith)) (range-Distinct 0 g.num_nodes)
        (Swept-start g front before next room bits) in
    (
      record {
        size = w.same;
        kept = w.kept;
        fresh = λ v h m.
            let (u, entry, lit, edge) = w.fresh v h m in
            let lu : u < g.num_nodes = omega (arith, visited-lt before u (stale u lit)) in
            let lv : v < g.num_nodes = omega (arith, w.same, visited-lt _ v m) in
            (u, entry, lit, valid.inverse u v lu lv ∙ edge);
        full = λ u v lit edge.
            let lu : u < g.num_nodes = omega (arith, visited-lt before u (stale u lit)) in
            let lv : v < g.num_nodes = elem-lt g.num_nodes v _ (valid.targets u lu) edge in
            w.full u v lv refl lit (sym (valid.inverse u v lu lv) ∙ edge);
        news = w.news;
      },
      w.bits,
      w.count,
    )
