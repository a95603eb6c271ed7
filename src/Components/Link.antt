-- ===== src/Components/Link.antt =====
-- Link of src/cc.cc ends, and joins two trees.
use gapbs_bfs_experiment.Base.{
  ℕ, zero, suc, ◌+◌, ◌-◌, ◌<◌, min, max, ◌≡◌, refl, sym, ap, ◌∙◌, arith, false, Option, some, List,
  set, ltb, ◌==◌, ==→eq, if◌then◌else◌, Bool-cases, inl, inr,
}
use gapbs_bfs_experiment.Components.{comp_at, link_loop, link}
use gapbs_bfs_experiment.Components.Forest.{Roots, merge, hook-Roots}

-- A loop that ended with trees in which those of `p1` and `p2` are joined.
pub record Joined (n : ℕ) (r : ℕ → ℕ) (p1 p2 : ℕ) (o : Option (List ℕ)) : Type 0 where
  pub comp' : List ℕ
  pub r' : ℕ → ℕ
  pub ends : o ≡ some comp'
  pub roots : Roots n comp' r'
  pub joined : (x : ℕ) → r' x ≡ merge r p1 p2 x

pub merge_like :
    (r : ℕ → ℕ) (a b c d x : ℕ)
    → max (r a) (r b) ≡ max (r c) (r d)
    → min (r a) (r b) ≡ min (r c) (r d)
    → merge r a b x ≡ merge r c d x
merge_like r a b c d x above least = rw (above, least) refl

merge_same : (r : ℕ → ℕ) (a b x : ℕ) → r a ≡ r b → r x ≡ merge r a b x
merge_same r a b x same = ground arith

-- The greater and the smaller of two vertices, as Link computes them.
abbrev pub high_of : ℕ → ℕ → ℕ
high_of p1 p2 = if ltb p2 p1 then p1 else p2

pub record Ordered (r : ℕ → ℕ) (p1 p2 high low : ℕ) : Type 0 where
  pub lower : low < high
  pub in_range : (n : ℕ) → p1 < n → p2 < n → high < n
  pub total : high + low ≡ p1 + p2
  pub above : max (r high) (r low) ≡ max (r p1) (r p2)
  pub least : min (r high) (r low) ≡ min (r p1) (r p2)

pub order-Ordered :
    (r : ℕ → ℕ) (p1 p2 : ℕ)
    → (p1 == p2) ≡ false
    → Ordered r p1 p2 (high_of p1 p2) (p1 + p2 - high_of p1 p2)
order-Ordered r p1 p2 differ = elim (Bool-cases (ltb p2 p1)) [
  | inl first ↦
      let low : p1 + p2 - p1 ≡ p2 = omega arith in
      rw first (
        rw low (record {
          lower = ground arith;
          in_range = λ n h1 h2. h1;
          total = refl;
          above = refl;
          least = refl;
        }))
  | inr second ↦
      let low : p1 + p2 - p2 ≡ p1 = omega arith in
      rw second (
        rw low (record {
          lower = ground arith;
          in_range = λ n h1 h2. h2;
          total = omega arith;
          above = omega arith;
          least = omega arith;
        }))
]

pub link_loop-Joined :
    {n : ℕ} {r : ℕ → ℕ} (fuel p1 p2 : ℕ) (comp : List ℕ)
    → Roots n comp r
    → p1 < n
    → p2 < n
    → p1 + p2 < fuel
    → Joined n r p1 p2 (link_loop fuel p1 p2 comp)
unfolding link_loop
link_loop-Joined zero p1 p2 comp t h1 h2 enough = absurd (omega arith)
link_loop-Joined {n} {r} (suc fuel) p1 p2 comp t h1 h2 enough =
    let high = high_of p1 p2 in
    let low = p1 + p2 - high in
    let up = comp_at comp high in
    elim (Bool-cases (p1 == p2)) [
      | inl one ↦ rw one (record {
        comp' = comp;
        r' = r;
        ends = refl;
        roots = t;
        joined = λ x. merge_same r p1 p2 x (ap r (==→eq p1 p2 one));
      })
      | inr two ↦
          let o = order-Ordered r p1 p2 two in
          let hn = o.in_range n h1 h2 in
          elim (Bool-cases (up == low)) [
            | inl linked ↦
                let same : r high ≡ r low = sym (t.same high hn) ∙ ap r (==→eq up low linked) in
                rw (two, linked)
                  (record {
                    comp' = comp;
                    r' = r;
                    ends = refl;
                    roots = t;
                    joined = λ x.
                        merge_same r high low x same
                        ∙ merge_like r high low p1 p2 x o.above o.least;
                  })
            | inr apart ↦ elim (Bool-cases (up == high)) [
              | inl root ↦
                  rw (two, apart, root)
                    (record {
                      comp' = set comp high low;
                      r' = merge r high low;
                      ends = refl;
                      roots = hook-Roots t high low hn o.lower (==→eq up high root);
                      joined = λ x. merge_like r high low p1 p2 x o.above o.least;
                    })
              | inr inner ↦
                  let upper = t.parent high hn in
                  let un : up < n = omega arith in
                  let ln : low < n = omega (arith, o.lower) in
                  let upup = comp_at comp up in
                  let down = comp_at comp low in
                  let r_up : r upup ≡ r high = t.same up un ∙ t.same high hn in
                  let r_down : r down ≡ r low = t.same low ln in
                  let smaller : upup + down < fuel =
                    ground (arith, t.parent up un, t.parent low ln, o.total) in
                  let ih =
                    link_loop-Joined fuel upup down comp t (omega (arith, t.parent up un))
                      (omega (arith, t.parent low ln)) smaller in
                  rw (two, apart, inner)
                    (record {
                      comp' = ih.comp';
                      r' = ih.r';
                      ends = ih.ends;
                      roots = ih.roots;
                      joined = λ x.
                          ih.joined x
                          ∙ merge_like r upup down high low x (omega arith) (omega arith)
                          ∙ merge_like r high low p1 p2 x o.above o.least;
                    })
            ]
          ]
    ]

-- On trees in which parents are not greater than their children, Link of two vertices ends, and
-- joins their trees under the smaller of the two roots; all other vertices keep their roots.
pub link-Joined :
    {n : ℕ} {r : ℕ → ℕ} (u v : ℕ) (comp : List ℕ)
    → Roots n comp r
    → u < n
    → v < n
    → Joined n r u v (link u v comp)
unfolding link
link-Joined {r} u v comp t hu hv =
    let p1 = comp_at comp u in
    let p2 = comp_at comp v in
    let j =
      link_loop-Joined (suc (p1 + p2)) p1 p2 comp t (omega (arith, t.parent u hu))
        (omega (arith, t.parent v hv)) (omega arith) in
    record {
      comp' = j.comp';
      r' = j.r';
      ends = j.ends;
      roots = j.roots;
      joined = λ x.
          j.joined x
          ∙ merge_like r p1 p2 u v x (omega (arith, t.same u hu, t.same v hv))
              (omega (arith, t.same u hu, t.same v hv));
    }
