-- ===== src/Components/Rounds.antt =====
-- The loops of Afforest (src/cc.cc): what they link, and that they link nothing else.
use gapbs_bfs_experiment.Base.{
  ℕ, ◌<◌, min, max, ◌≡◌, refl, sym, ◌∙◌, subst, arith, true, Option, some, List, [], ◌∷◌, elem,
  ◌==◌, ==→eq, Bool-cases, inl, inr, leb,
}
use gapbs_bfs_experiment.Graph.{Graph, Edge}
use gapbs_bfs_experiment.Components.Forest.{Roots, merge}
use gapbs_bfs_experiment.Components.Link.{link-Joined}
use gapbs_bfs_experiment.Components.{link, for_each, link_all}

-- Vertices that a walk joins, along edges in either direction.
pub data Meets (g : Graph) : ℕ → ℕ → Type 0 where
  here : {u : ℕ} → Meets g u u
  along : {u v w : ℕ} → u < g.num_nodes → Edge g u v → Meets g v w → Meets g u w
  against : {u v w : ℕ} → v < g.num_nodes → Edge g v u → Meets g v w → Meets g u w

module _ {g : Graph} where
  pub meets_trans : {u v w : ℕ} → Meets g u v → Meets g v w → Meets g u w
  meets_trans here m = m
  meets_trans (along h e l) m = along h e (meets_trans l m)
  meets_trans (against h e l) m = against h e (meets_trans l m)

  pub meets_sym : {u v : ℕ} → Meets g u v → Meets g v u
  meets_sym here = here
  meets_sym (along h e l) = meets_trans (meets_sym l) (against h e here)
  meets_sym (against h e l) = meets_trans (meets_sym l) (along h e here)

-- What all edges keep, walks keep.
pub meets_joined :
    {g : Graph} (q : ℕ → ℕ)
    → ((u v : ℕ) → u < g.num_nodes → Edge g u v → q u ≡ q v)
    → {u w : ℕ} → Meets g u w
    → q u ≡ q w
meets_joined q edge here = refl
meets_joined q edge (along {u} {v} hu e m) = edge u v hu e ∙ meets_joined q edge m
meets_joined q edge (against {u} {v} hv e m) = sym (edge v u hv e) ∙ meets_joined q edge m

-- The trees join only vertices that meet.
pub record Sound (g : Graph) (comp : List ℕ) (r : ℕ → ℕ) : Type 0 where
  pub roots : Roots g.num_nodes comp r
  pub sound : (x : ℕ) → x < g.num_nodes → Meets g x (r x)

-- What was in one tree stays so.
abbrev pub Coarser : (ℕ → ℕ) → (ℕ → ℕ) → Type 0
Coarser r r' = (x y : ℕ) → r x ≡ r y → r' x ≡ r' y

-- A loop that ended with trees that are those of `r`, or joins of them, and `Did` of them.
pub record Grown (g : Graph) (r : ℕ → ℕ) (Did : (ℕ → ℕ) → Type 0) (o : Option (List ℕ))
    : Type 0 where
  pub comp' : List ℕ
  pub r' : ℕ → ℕ
  pub ends : o ≡ some comp'
  pub state : Sound g comp' r'
  pub coarser : Coarser r r'
  pub did : Did r'

max_meets : {g : Graph} (a b : ℕ) → Meets g a b → Meets g (max a b) (min a b)
max_meets a b m = elim (Bool-cases (leb a b)) [
  | inl le ↦
      let above : max a b ≡ b = ground arith in
      let least : min a b ≡ a = ground arith in rw (above, least) (meets_sym m)
  | inr gt ↦
      let above : max a b ≡ a = ground arith in
      let least : min a b ≡ b = ground arith in rw (above, least) m
]

pub merge_meets :
    {g : Graph} (r : ℕ → ℕ) (u v x : ℕ)
    → Meets g x (r x)
    → Meets g (r u) (r v)
    → Meets g x (merge r u v x)
merge_meets {g} r u v x own across = elim (Bool-cases (r x == max (r u) (r v))) [
  | inr other ↦ rw other own
  | inl top ↦
      let at_top : r x ≡ max (r u) (r v) = ==→eq (r x) (max (r u) (r v)) top in
      let down = max_meets (r u) (r v) across in
      rw top (meets_trans own (subst (λ y. Meets g y (min (r u) (r v))) (sym at_top) down))
]

module _ {g : Graph} where
  pub link-Grown :
      {comp : List ℕ} {r : ℕ → ℕ} (u v : ℕ)
      → Sound g comp r
      → u < g.num_nodes
      → v < g.num_nodes
      → Meets g u v
      → Grown g r (λ r'. r' u ≡ r' v) (link u v comp)
  link-Grown {comp} {r} u v s hu hv meet =
      let j = link-Joined u v comp s.roots hu hv in
      let across = meets_trans (meets_sym (s.sound u hu)) (meets_trans meet (s.sound v hv)) in
      record {
        comp' = j.comp';
        r' = j.r';
        ends = j.ends;
        state = record {
          roots = j.roots;
          sound = λ x hx.
              subst (Meets g x) (sym (j.joined x)) (merge_meets r u v x (s.sound x hx) across);
        };
        coarser = λ x y same. j.joined x ∙ rw same (sym (j.joined y));
        did = ground (arith, j.joined u, j.joined v);
      }

  -- A loop over vertices does for each of them what its body does, if later links do not undo it.
  pub for_each-Grown :
      (body : ℕ → List ℕ → Option (List ℕ)) (Did : ℕ → (ℕ → ℕ) → Type 0)
      → ((u : ℕ) (r r' : ℕ → ℕ) → Coarser r r' → Did u r → Did u r')
      → (us : List ℕ)
      → ((u : ℕ) (comp : List ℕ) (r : ℕ → ℕ)
          → elem u us ≡ true
          → Sound g comp r
          → Grown g r (Did u) (body u comp))
      → {comp : List ℕ} {r : ℕ → ℕ} → Sound g comp r
      → Grown g r (λ r'. (u : ℕ) → elem u us ≡ true → Did u r') (for_each body us comp)
  unfolding for_each
  for_each-Grown body Did stable [] each {comp} {r} s = record {
    comp' = comp;
    r' = r;
    ends = refl;
    state = s;
    coarser = λ x y same. same;
    did = λ u h. cc;
  }
  for_each-Grown body Did stable (u ∷ us) each {comp} {r} s =
      let first = each u comp r (ground arith) s in
      let rest =
        for_each-Grown body Did stable us (λ v c q h. each v c q (ground arith)) first.state in
      record {
        comp' = rest.comp';
        r' = rest.r';
        ends = rw first.ends rest.ends;
        state = rest.state;
        coarser = λ x y same. rest.coarser x y (first.coarser x y same);
        did = λ v h. elim (Bool-cases (v == u)) [
          | inl same ↦
              subst (λ w. Did w rest.r') (sym (==→eq v u same))
                (stable u first.r' rest.r' rest.coarser first.did)
          | inr other ↦ rest.did v (ground arith)
        ];
      }

  pub link_all-Grown :
      (u : ℕ) (vs : List ℕ)
      → u < g.num_nodes
      → ((v : ℕ) → elem v vs ≡ true → (v < g.num_nodes) × Meets g u v)
      → {comp : List ℕ} {r : ℕ → ℕ} → Sound g comp r
      → Grown g r (λ r'. (v : ℕ) → elem v vs ≡ true → r' u ≡ r' v) (link_all u vs comp)
  unfolding link_all
  link_all-Grown u vs hu meet =
      for_each-Grown (λ v c. link u v c) (λ v r'. r' u ≡ r' v) (λ v r r' coarse. coarse u v) vs
        (λ v comp r h s. let (hv, m) = meet v h in link-Grown u v s hu hv m)
