-- ===== src/Workers/Orders.antt =====
-- Any order of the workers in a region of bfs.cc goes over each iteration of its loop.
use gapbs_bfs_experiment.Base.{
  foldl-append, ℕ, ◌<◌, ◌≡◌, refl, ap, arith, List, [], ◌∷◌, foldl, elem, ltb, leb, if◌then◌else◌,
  inl, inr, Bool-cases,
}
use gapbs_bfs_experiment.Workers.Ranges.{share, shares, owner, share-lt, shares-elem, elem-shares}
use gapbs_bfs_experiment.Workers.Regions.{run_parallel, AllRun}

abbrev pub run_order : ℕ → List ℕ → List ℕ
run_order nthreads order = if leb nthreads 1 then 0 ∷ [] else order

pub run_order-AllRun :
    (nthreads : ℕ) (order : List ℕ)
    → 0 < nthreads
    → AllRun nthreads order
    → AllRun nthreads (run_order nthreads order)
run_order-AllRun nthreads order h all t = ground (arith, all t)

-- The region is the workers' runs in turn.
pub run_parallel_lem {ℓ} :
    {C : Type ℓ} (nthreads : ℕ) (order : List ℕ) (fn : ℕ → ℕ → C → C) (ctx : C)
    → 0 < nthreads
    → run_parallel nthreads order fn ctx
      ≡ foldl (λ c t. fn t nthreads c) ctx (run_order nthreads order)
unfolding run_parallel
run_parallel_lem nthreads order fn ctx h = elim (Bool-cases (leb nthreads 1)) [
  | inl e ↦ let one : 1 ≡ nthreads = ground arith in rw e (ap (λ k. fn 0 k ctx) one)
  | inr e ↦ rw e refl
]

module _ {ℓ} {C : Type ℓ} (n nthreads : ℕ) (step : C → ℕ → C) where
  pub foldl-shares :
      (tids : List ℕ) (c : C)
      → foldl (λ c t. foldl step c (share n nthreads t)) c tids
        ≡ foldl step c (shares n nthreads tids)
  unfolding shares
  foldl-shares [] c = refl
  foldl-shares (t ∷ tids) c =
      rw (foldl-append step (share n nthreads t) (shares n nthreads tids) c)
        (foldl-shares tids (foldl step c (share n nthreads t)))

-- Whatever the order, the iterations dealt are those below n.
pub elem-shares_all :
    (n nthreads : ℕ) (order : List ℕ) (i : ℕ)
    → 0 < nthreads
    → AllRun nthreads order
    → elem i (shares n nthreads order) ≡ ltb i n
elem-shares_all n nthreads order i h all = elim (Bool-cases (ltb i n)) [
  | inl e ↦
      let (t, lt, mine) = owner n nthreads i h (ground arith) in
      rw e (shares-elem n nthreads i t order (ground (arith, all t)) mine)
  | inr e ↦ elim (Bool-cases (elem i (shares n nthreads order))) [
    | inl m ↦
        let (t, member, mine) = elem-shares n nthreads i order m in
        let lt = share-lt n nthreads i t (ground (arith, all t)) mine in absurd (ground arith)
    | inr m ↦ rw (e, m) refl
  ]
]
