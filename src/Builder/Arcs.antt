-- ===== src/Builder/Arcs.antt =====
-- What MakeCSR of src/builder.h is to store: the arcs of the edges, grouped by their sources.
use gapbs_bfs_experiment.Base.{
  read_after, foldl-append, ℕ, ◌+◌, ◌%◌, ◌^◌, ◌≤◌, ◌<◌, ◌≡◌, refl, ap, ◌∙◌, sym, arith, Bool, true,
  false, List, [], ◌∷◌, ◌++◌, foldl, length, get_or, replicate, if◌then◌else◌, inl, inr, Bool-cases,
  length-set, length-replicate, get_or-replicate, ◌==◌, ==→eq,
}
use gapbs_bfs_experiment.Builder.{
  EdgePair, Settings, count_one, count_edge, count_degrees, Filling, place, place_edge,
}

-- An arc from its source to its target.
abbrev pub Arc : Type 0
Arc = ℕ × ℕ

-- The arcs that an edge stands for.
abbrev pub edge_arcs : Bool → Bool → EdgePair → List Arc
edge_arcs true transpose e = (e.u, e.v) ∷ (e.v, e.u) ∷ []
edge_arcs false false e = (e.u, e.v) ∷ []
edge_arcs false true e = (e.v, e.u) ∷ []

abbrev pub arcs : Bool → Bool → List EdgePair → List Arc
arcs symmetrize transpose [] = []
arcs symmetrize transpose (e ∷ el) =
    edge_arcs symmetrize transpose e ++ arcs symmetrize transpose el

-- The targets of the arcs out of one vertex, in order.
abbrev pub targets : ℕ → List Arc → List ℕ
targets u [] = []
targets u (a ∷ arcs) = if u == a.0 then a.1 ∷ targets u arcs else targets u arcs

pub targets-append :
    (u : ℕ) (xs ys : List Arc) → targets u (xs ++ ys) ≡ targets u xs ++ targets u ys
targets-append u [] ys = refl
targets-append u (a ∷ xs) ys = elim (Bool-cases (u == a.0)) [
  | inl e ↦ rw e (ap (◌∷◌ a.1) (targets-append u xs ys))
  | inr e ↦ rw e (targets-append u xs ys)
]

-- The sources of the arcs are below `n`.
abbrev pub Sourced : ℕ → List Arc → Type 0
Sourced n [] = Unit {0}
Sourced n (a ∷ rest) = (a.0 < n) × Sourced n rest

abbrev pub place_arc : Filling → Arc → Filling
place_arc f a = place f a.0 a.1

module _ (o : Settings) (transpose : Bool) where
  place_edge-arcs :
      (f : Filling) (e : EdgePair)
      → place_edge o transpose f e ≡ foldl place_arc f (edge_arcs o.symmetrize transpose e)
  unfolding place_edge
  place_edge-arcs f e = elim (Bool-cases o.symmetrize) [
    | inl s ↦ rw s refl
    | inr s ↦ elim (Bool-cases transpose) [ inl t ↦ rw (s, t) refl | inr t ↦ rw (s, t) refl ]
  ]

  pub place_edges :
      (el : List EdgePair) (f : Filling)
      → foldl (place_edge o transpose) f el ≡ foldl place_arc f (arcs o.symmetrize transpose el)
  place_edges [] f = refl
  place_edges (e ∷ el) f =
      place_edges el (place_edge o transpose f e)
      ∙ ap (λ g. foldl place_arc g (arcs o.symmetrize transpose el)) (place_edge-arcs f e)
      ∙ sym (
          foldl-append place_arc (edge_arcs o.symmetrize transpose e)
            (arcs o.symmetrize transpose el) f)

  module _ (apart : o.in_place ≡ false) where
    count_edge-arcs :
        (degrees : List ℕ) (e : EdgePair)
        → count_edge o transpose degrees e
          ≡ foldl (λ d a. count_one d a.0) degrees (edge_arcs o.symmetrize transpose e)
    unfolding count_edge
    count_edge-arcs degrees e = elim (Bool-cases o.symmetrize) [
      | inl s ↦ rw (s, apart) refl
      | inr s ↦ elim (Bool-cases transpose) [ inl t ↦ rw (s, t) refl | inr t ↦ rw (s, t) refl ]
    ]

    count_edges :
        (el : List EdgePair) (degrees : List ℕ)
        → foldl (count_edge o transpose) degrees el
          ≡ foldl (λ d a. count_one d a.0) degrees (arcs o.symmetrize transpose el)
    count_edges [] degrees = refl
    count_edges (e ∷ el) degrees =
        count_edges el (count_edge o transpose degrees e)
        ∙ ap (λ d. foldl (λ d a. count_one d a.0) d (arcs o.symmetrize transpose el))
            (count_edge-arcs degrees e)
        ∙ sym (
            foldl-append (λ d a. count_one d a.0) (edge_arcs o.symmetrize transpose e)
              (arcs o.symmetrize transpose el) degrees)

pub length-targets : (u : ℕ) (xs : List Arc) → length (targets u xs) ≤ length xs
length-targets u [] = omega arith
length-targets u (a ∷ xs) = elim (Bool-cases (u == a.0)) [
  | inl e ↦ rw e (omega (arith, length-targets u xs))
  | inr e ↦ rw e (omega (arith, length-targets u xs))
]

-- Counting the arcs of each source.
count_arcs :
    (as' : List Arc) (degrees : List ℕ) (u : ℕ)
    → u < length degrees
    → get_or degrees u 0 + length (targets u as') < 2 ^ 32
    → (get_or (foldl (λ d a. count_one d a.0) degrees as') u 0
        ≡ get_or degrees u 0 + length (targets u as'))
      × (length (foldl (λ d a. count_one d a.0) degrees as') ≡ length degrees)
count_arcs [] degrees u h few = (omega arith, refl)
count_arcs (a ∷ rest) degrees u h few =
    let value = (get_or degrees a.0 0 + 1) % 2 ^ 32 in
    let size = length-set degrees a.0 value in
    let look = read_after 0 degrees a.0 u value h in
    let from = λ (same : u ≡ a.0). ap (λ k. get_or degrees k 0) same in
    let fits : get_or (count_one degrees a.0) u 0 + length (targets u rest) < 2 ^ 32 =
      elim (Bool-cases (u == a.0)) [
        | inl e ↦ let few' = rw e at few in ground (arith, look, from (==→eq u a.0 e), few')
        | inr e ↦ let few' = rw e at few in ground (arith, look, few')
      ] in
    let (entry, len) = count_arcs rest (count_one degrees a.0) u (omega (arith, size)) fits in
    (
      elim (Bool-cases (u == a.0)) [
        | inl e ↦
            let few' = rw e at few in rw e (ground (arith, entry, look, from (==→eq u a.0 e), few'))
        | inr e ↦ rw e (ground (arith, entry, look))
      ],
      len ∙ size,
    )

-- CountDegrees counts the arcs that MakeCSR stores.
pub get_or-count_degrees :
    (o : Settings) (n : ℕ) (transpose : Bool) (el : List EdgePair) (u : ℕ)
    → o.in_place ≡ false
    → u < n
    → length (arcs o.symmetrize transpose el) < 2 ^ 31
    → get_or (count_degrees o n transpose el) u 0
      ≡ length (targets u (arcs o.symmetrize transpose el))
unfolding count_degrees
get_or-count_degrees o n transpose el u apart h few =
    rw (count_edges o transpose apart el (replicate n 0)) (
      (count_arcs (arcs o.symmetrize transpose el) (replicate n 0) u
        (omega (arith, length-replicate {A = ℕ} n 0))
        (omega (arith, none_yet, length-targets u (arcs o.symmetrize transpose el), few))).0
      ∙ none_yet)
  where
    none_yet :
        get_or (replicate n 0) u 0 + length (targets u (arcs o.symmetrize transpose el))
        ≡ length (targets u (arcs o.symmetrize transpose el))
    none_yet = omega (arith, get_or-replicate {A = ℕ} n u 0)

length-count_arcs :
    (rest : List Arc) (degrees : List ℕ)
    → length (foldl (λ d a. count_one d a.0) degrees rest) ≡ length degrees
length-count_arcs [] degrees = refl
length-count_arcs (a ∷ rest) degrees =
    length-count_arcs rest (count_one degrees a.0) ∙ length-set degrees a.0 _

pub length-count_degrees :
    (o : Settings) (n : ℕ) (transpose : Bool) (el : List EdgePair)
    → o.in_place ≡ false
    → length (count_degrees o n transpose el) ≡ n
unfolding count_degrees
length-count_degrees o n transpose el apart =
    rw (count_edges o transpose apart el (replicate n 0))
      (length-count_arcs (arcs o.symmetrize transpose el) (replicate n 0) ∙ length-replicate n 0)
