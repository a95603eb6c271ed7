-- ===== src/Benchmark/Descent.antt =====
-- Descending lists of values, for TopK of src/benchmark.h.
use gapbs_bfs_experiment.Base.{
  ℕ, zero, suc, ◌≤◌, ◌≡◌, refl, sym, ap, ◌∙◌, arith, List, [], ◌∷◌, ◌++◌, map, length, take, ltb,
  if◌then◌else◌, Bool-cases, false, inl, inr,
}
use gapbs_bfs_experiment.Benchmark.{Ranked, greater, put_pair, sort_greater, back_value}

-- No item is above the one before, and the first is not above `high`.
abbrev pub Under : ℕ → List ℕ → Type 0
Under high [] = Unit {0}
Under high (x ∷ xs) = (x ≤ high) × Under x xs

abbrev pub Falling : List ℕ → Type 0
Falling [] = Unit {0}
Falling (x ∷ xs) = Under x xs

-- A value put into its place.
abbrev pub into : ℕ → List ℕ → List ℕ
into x [] = x ∷ []
into x (y ∷ ys) = if ltb x y then y ∷ into x ys else x ∷ y ∷ ys

Under-Falling : (high : ℕ) (xs : List ℕ) → Under high xs → Falling xs
Under-Falling high [] u = tt
Under-Falling high (x ∷ xs) u = u.1

into-Under : (high x : ℕ) (xs : List ℕ) → x ≤ high → Under high xs → Under high (into x xs)
into-Under high x [] h u = (h, tt)
into-Under high x (y ∷ ys) h u = elim (Bool-cases (ltb x y)) [
  | inl e ↦ rw e (u.0, into-Under y x ys (ground arith) u.1)
  | inr e ↦ rw e (h, (ground arith, u.1))
]

pub into-Falling : (x : ℕ) (xs : List ℕ) → Falling xs → Falling (into x xs)
into-Falling x [] f = tt
into-Falling x (y ∷ ys) f = elim (Bool-cases (ltb x y)) [
  | inl e ↦ rw e (into-Under y x ys (ground arith) f)
  | inr e ↦ rw e (ground arith, f)
]

into_front : (x : ℕ) (ys : List ℕ) → Under x ys → into x ys ≡ x ∷ ys
into_front x [] u = refl
into_front x (y ∷ ys) u = ground (arith, u.0)

widen : (low high : ℕ) (xs : List ℕ) → low ≤ high → Under low xs → Under high xs
widen low high [] h u = tt
widen low high (x ∷ xs) h u = (omega (arith, u.0), u.1)

-- A value may go in before the ones after it.
into_later : (v x : ℕ) (vs : List ℕ) → Under v vs → into v (into x vs) ≡ into x (v ∷ vs)
into_later v x vs u = elim (Bool-cases (ltb x v)) [
  | inl below ↦ rw below (into_front v (into x vs) (into-Under v x vs (ground arith) u))
  | inr above ↦
      let le : v ≤ x = ground arith in
      let here = into_front x vs (widen v x vs le u) in
      let there = into_front v vs u in
      rw (above, here)
        (elim (Bool-cases (ltb v x)) [
          | inl less ↦ rw (less, there) refl
          | inr not_less ↦ let same : v ≡ x = ground arith in rw (not_less, same) refl
        ])
]

abbrev pub values : List Ranked → List ℕ
values = map (λ p. p.value)

values-put_pair :
    (p : Ranked) (qs : List Ranked)
    → Falling (values qs)
    → values (put_pair p qs) ≡ into p.value (values qs)
unfolding put_pair greater
values-put_pair p [] f = refl
values-put_pair p (q ∷ qs) f =
    let rest = values-put_pair p qs (Under-Falling q.value (values qs) f) in
    elim (Bool-cases (greater q p)) [
      | inl later ↦ rw later (elim (Bool-cases (ltb p.value q.value)) [
        | inl less ↦ rw (less, rest) refl
        | inr not_less ↦
            let same : q.value ≡ p.value = ground arith in
            let front =
              into_front p.value (values qs) (widen q.value p.value (values qs) (omega arith) f) in
            rw (not_less, rest, front, same) refl
      ])
      | inr now ↦
          let not_less : ltb p.value q.value ≡ false = ground arith in rw (now, not_less) refl
    ]

pub values-sort_greater :
    (x : Ranked) (ps : List Ranked)
    → Falling (values ps)
    → values (sort_greater (ps ++ x ∷ [])) ≡ into x.value (values ps)
unfolding sort_greater
values-sort_greater x [] f = refl
values-sort_greater x (p ∷ ps) f =
    let rest = values-sort_greater x ps (Under-Falling p.value (values ps) f) in
    let falls = into-Falling x.value (values ps) (Under-Falling p.value (values ps) f) in
    values-put_pair p (sort_greater (ps ++ x ∷ [])) (rw rest falls)
    ∙ ap (into p.value) rest
    ∙ into_later p.value x.value (values ps) f

take_inner : (j k : ℕ) (s : List ℕ) → j ≤ k → take j (take k s) ≡ take j s
take_inner zero k s h = refl
take_inner (suc j) zero s h = absurd (omega arith)
take_inner (suc j) (suc k) [] h = refl
take_inner (suc j) (suc k) (y ∷ ys) h = ap (λ r. y ∷ r) (take_inner j k ys (omega arith))

pub take-into : (k x : ℕ) (s : List ℕ) → take k (into x (take k s)) ≡ take k (into x s)
take-into zero x s = refl
take-into (suc k) x [] = refl
take-into (suc k) x (y ∷ ys) = elim (Bool-cases (ltb x y)) [
  | inl later ↦ rw later (ap (λ r. y ∷ r) (take-into k x ys))
  | inr now ↦ rw now (ap (λ r. x ∷ r) (take_inner k (suc k) (y ∷ ys) (omega arith)))
]

back_least : (high : ℕ) (ps : List Ranked) → Under high (values ps) → back_value ps ≤ high
back_least high [] u = omega arith
back_least high (p ∷ []) u = u.0
back_least high (p ∷ q ∷ qs) u = let rest = back_least p.value (q ∷ qs) u.1 in omega (arith, u.0)

-- A value that is not above the last one goes in behind all.
pub into_behind :
    (x : ℕ) (ps : List Ranked)
    → Falling (values ps)
    → x ≤ back_value ps
    → take (length ps) (into x (values ps)) ≡ values ps
into_behind x [] f h = refl
into_behind x (p ∷ []) f h = elim (Bool-cases (ltb x p.value)) [
  | inl below ↦ rw below refl
  | inr level ↦ let same : x ≡ p.value = ground arith in rw (level, same) refl
]
into_behind x (p ∷ q ∷ qs) f h =
    let rest = into_behind x (q ∷ qs) f.1 h in
    elim (Bool-cases (ltb x p.value)) [
      | inl below ↦ rw below (ap (λ r. p.value ∷ r) rest)
      | inr level ↦
          let least = back_least p.value (q ∷ qs) f in
          let same : x ≡ p.value = ground arith in
          let under = widen p.value x (values (q ∷ qs)) (omega arith) f in
          let front = into_front x (values (q ∷ qs)) under in
          rw level (
            ap (λ r. x ∷ r)
              (ap (take (length (q ∷ qs))) (ap (λ y. y ∷ values (q ∷ qs)) (sym same) ∙ sym front)
                ∙ rest)
            ∙ rw same refl)
    ]

take-Under : (k high : ℕ) (xs : List ℕ) → Under high xs → Under high (take k xs)
take-Under zero high xs u = tt
take-Under (suc k) high [] u = tt
take-Under (suc k) high (x ∷ xs) u = (u.0, take-Under k x xs u.1)

pub take-Falling : (k : ℕ) (xs : List ℕ) → Falling xs → Falling (take k xs)
take-Falling zero xs f = tt
take-Falling (suc k) [] f = tt
take-Falling (suc k) (x ∷ xs) f = take-Under k x xs f
