-- ===== src/Benchmark/Largest.antt =====
-- TopK of src/benchmark.h keeps the largest values.
use gapbs_bfs_experiment.Base.{
  ℕ, zero, suc, ◌+◌, ◌&&◌, ◌==◌, Bool, true, ◌≤◌, ◌<◌, ◌≡◌, refl, sym, ap, ◌∙◌, subst, arith, ◌++◌,
  ◌||◌, List, [], ◌∷◌, length, length-map, take, ltb, if◌then◌else◌, Bool-cases, inl, inr,
}
use gapbs_bfs_experiment.Benchmark.Descent.{
  Falling, into, into-Falling, values, values-sort_greater, take-into, into_behind, take-Falling,
}
use gapbs_bfs_experiment.Benchmark.{
  Ranked, Best, back_value, greater, put_pair, sort_greater, rank, rank_all, top_k,
}

-- All values in descending order.
abbrev pub ordered : List Ranked → List ℕ → List ℕ
ordered [] seen = seen
ordered (p ∷ ps) seen = ordered ps (into p.value seen)

ordered-Falling : (ps : List Ranked) (seen : List ℕ) → Falling seen → Falling (ordered ps seen)
ordered-Falling [] seen f = f
ordered-Falling (p ∷ ps) seen f =
    ordered-Falling ps (into p.value seen) (into-Falling p.value seen f)

-- How often a value is in a list.
abbrev pub times : ℕ → List ℕ → ℕ
times x [] = 0
times x (y ∷ ys) = let rest = times x ys in if x == y then suc rest else rest

times-into : (x y : ℕ) (ys : List ℕ) → times x (into y ys) ≡ times x (y ∷ ys)
times-into x y [] = refl
times-into x y (z ∷ zs) = ground (arith, times-into x y zs)

times-ordered :
    (x : ℕ) (ps : List Ranked) (seen : List ℕ)
    → times x (ordered ps seen) ≡ times x (values ps) + times x seen
times-ordered x [] seen = omega arith
times-ordered x (p ∷ ps) seen =
    ground (arith, times-ordered x ps (into p.value seen), times-into x p.value seen)

abbrev pub all_of : (Ranked → Bool) → List Ranked → Bool
all_of P [] = true
all_of P (p ∷ ps) = P p && all_of P ps

-- The `k` largest pairs by value: among equal values any of the pairs may be kept.
pub record Largest (k : ℕ) (ps : List Ranked) (result : List Ranked) : Type 0 where
  pub all : List ℕ
  pub falls : Falling all
  pub counts : (x : ℕ) → times x all ≡ times x (values ps)
  pub view : values result ≡ take k all
  pub own : (P : Ranked → Bool) → all_of P ps ≡ true → all_of P result ≡ true

module _ (P : Ranked → Bool) where
  all_of-put_pair :
      (p : Ranked) (qs : List Ranked) → all_of P (put_pair p qs) ≡ (P p && all_of P qs)
  unfolding put_pair
  all_of-put_pair p [] = refl
  all_of-put_pair p (q ∷ qs) = elim (Bool-cases (greater q p)) [
    | inl e ↦ rw e (ground (arith, all_of-put_pair p qs))
    | inr e ↦ rw e refl
  ]

  all_of-sort_greater :
      (ps : List Ranked) (x : Ranked)
      → all_of P (sort_greater (ps ++ x ∷ [])) ≡ (P x && all_of P ps)
  unfolding sort_greater
  all_of-sort_greater [] x = refl
  all_of-sort_greater (p ∷ ps) x =
      ground (arith, all_of-put_pair p (sort_greater (ps ++ x ∷ [])), all_of-sort_greater ps x)

  all_of-take : (k : ℕ) (ps : List Ranked) → all_of P ps ≡ true → all_of P (take k ps) ≡ true
  all_of-take zero ps h = refl
  all_of-take (suc k) [] h = refl
  all_of-take (suc k) (p ∷ ps) h = ground (arith, all_of-take k ps)

  all_of-rank :
      (k : ℕ) (b : Best) (p : Ranked)
      → P p ≡ true
      → all_of P b.top_k ≡ true
      → all_of P (rank k b p).top_k ≡ true
  unfolding rank
  all_of-rank k b p h t =
      let l = sort_greater (b.top_k ++ p ∷ []) in
      let all = all_of-sort_greater b.top_k p in
      let cut_all = all_of-take k l (ground (arith, all)) in
      elim (Bool-cases (ltb (length b.top_k) k || ltb b.min_so_far p.value)) [
        | inl adds ↦ rw adds (elim (Bool-cases (ltb k (length l))) [
          | inl long ↦ rw long cut_all
          | inr short ↦ rw short (ground (arith, all))
        ])
        | inr passes ↦ rw passes t
      ]

  all_of-rank_all :
      (k : ℕ) (ps : List Ranked) (b : Best)
      → all_of P ps ≡ true
      → all_of P b.top_k ≡ true
      → all_of P (rank_all k ps b).top_k ≡ true
  unfolding rank_all
  all_of-rank_all k [] b h t = t
  all_of-rank_all k (p ∷ ps) b h t =
      all_of-rank_all k ps (rank k b p) (ground arith) (all_of-rank k b p (ground arith) t)

values-take : (k : ℕ) (ps : List Ranked) → values (take k ps) ≡ take k (values ps)
values-take zero ps = refl
values-take (suc k) [] = refl
values-take (suc k) (p ∷ ps) = ap (λ r. p.value ∷ r) (values-take k ps)

take_short : (k : ℕ) (xs : List ℕ) → length xs ≤ k → take k xs ≡ xs
take_short zero [] h = refl
take_short zero (x ∷ xs) h = absurd (omega arith)
take_short (suc k) [] h = refl
take_short (suc k) (x ∷ xs) h = ap (λ r. x ∷ r) (take_short k xs (omega arith))

take_at_most : (k : ℕ) (xs : List ℕ) → length (take k xs) ≤ k
take_at_most zero xs = omega arith
take_at_most (suc k) [] = omega arith
take_at_most (suc k) (x ∷ xs) = omega (arith, take_at_most k xs)

-- The values of the list after it is cut to `k` pairs.
cut :
    (k : ℕ) (ps : List Ranked)
    → values (if ltb k (length ps) then take k ps else ps) ≡ take k (values ps)
cut k ps = elim (Bool-cases (ltb k (length ps))) [
  | inl long ↦ rw long (values-take k ps)
  | inr short ↦
      let size = length-map (λ p. p.value) ps in
      rw short (sym (take_short k (values ps) (ground arith)))
]

-- The largest `k` of the values seen, and the least of them.
record Keeps (k : ℕ) (seen : List ℕ) (b : Best) : Type 0 where
  view : values b.top_k ≡ take k seen
  least : b.min_so_far ≡ back_value b.top_k

module _ (k : ℕ) (some_room : 0 < k) where
  rank-Keeps :
      (seen : List ℕ) (b : Best) (p : Ranked)
      → Falling seen
      → Keeps k seen b
      → Keeps k (into p.value seen) (rank k b p)
  unfolding rank
  rank-Keeps seen b p falls t =
      let own : Falling (values b.top_k) = subst Falling (sym t.view) (take-Falling k seen falls) in
      let grown = take-into k p.value seen in
      elim (Bool-cases (ltb (length b.top_k) k || ltb b.min_so_far p.value)) [
        | inl adds ↦
            let sorted = values-sort_greater p b.top_k own in
            rw adds (record {
              view =
                  cut k (sort_greater (b.top_k ++ p ∷ []))
                  ∙ ap (take k) (sorted ∙ ap (into p.value) t.view)
                  ∙ grown;
              least = refl;
            })
        | inr passes ↦
            let size = length-map (λ p. p.value) b.top_k in
            let most : length (values b.top_k) ≤ k =
              subst (λ xs. length xs ≤ k) (sym t.view) (take_at_most k seen) in
            let full : length b.top_k ≡ k = ground arith in
            let low : p.value ≤ back_value b.top_k = ground (arith, t.least) in
            let behind = into_behind p.value b.top_k own low in
            let same : take k (into p.value (values b.top_k)) ≡ values b.top_k =
              ap (λ n. take n (into p.value (values b.top_k))) (sym full) ∙ behind in
            rw passes (record {
              view = sym same ∙ ap (λ xs. take k (into p.value xs)) t.view ∙ grown;
              least = t.least;
            })
      ]

  rank_all-Keeps :
      (to_sort : List Ranked) (seen : List ℕ) (b : Best)
      → Falling seen
      → Keeps k seen b
      → Keeps k (ordered to_sort seen) (rank_all k to_sort b)
  unfolding rank_all
  rank_all-Keeps [] seen b falls t = t
  rank_all-Keeps (p ∷ ps) seen b falls t =
      rank_all-Keeps ps (into p.value seen) (rank k b p) (into-Falling p.value seen falls)
        (rank-Keeps seen b p falls t)

  pub top_k-Largest : (to_sort : List Ranked) → Largest k to_sort (top_k to_sort k)
  unfolding top_k
  top_k-Largest to_sort =
      let start : Best = record { top_k = []; min_so_far = 0 } in
      let none_seen : Keeps k [] start = record {
        view = sym (take_short k [] (omega arith));
        least = refl;
      } in
      record {
        all = ordered to_sort [];
        falls = ordered-Falling to_sort [] tt;
        counts = λ x. ground (arith, times-ordered x to_sort []);
        view = (rank_all-Keeps to_sort [] start tt none_seen).view;
        own = λ P h. all_of-rank_all P k to_sort start h refl;
      }
