-- ===== src/Workers/Entries.antt =====
-- InitParent and the last sweep of bfs.cc do what the loops of src/bfs.cc do, whatever the order of
-- the workers.
use native.Mathlib.Nat
use gapbs_bfs_experiment.Base.{
  read_after, entries_ext, ℕ, ◌<◌, ◌≡◌, refl, ap, ◌∙◌, arith, true, List, [], ◌∷◌, foldl, elem,
  length, get_or, set, length-set, length-replicate, if◌then◌else◌, inl, inr, Bool-cases, ◌==◌,
  ==→eq, sym, replicate, get_or-map-range, ℤ, minus_one, ltb_ℤ,
}
use gapbs_bfs_experiment.Graph.{Graph, out_degree}
use gapbs_bfs_experiment.Bfs.Parent.{
  parent_at, initial_entry, init_parent, length-init_parent, cleaned, cleanup, length-cleanup,
  parent_at-cleanup,
}
use gapbs_bfs_experiment.Workers.Ranges.{shares}
use gapbs_bfs_experiment.Workers.Regions.{
  init_parent_worker, init_parent_region, clean_entry, cleanup_worker, cleanup_region, AllRun,
}
use gapbs_bfs_experiment.Workers.Orders.{
  run_order, run_order-AllRun, run_parallel_lem, foldl-shares, elem-shares_all,
}

module _ {ℓ} {A : Type ℓ} (f : ℕ → A) (d : A) where
  length-writes : (ns : List ℕ) (p : List A) → length (foldl (λ p n. set p n (f n)) p ns) ≡ length p
  length-writes [] p = refl
  length-writes (n ∷ ns) p = length-writes ns (set p n (f n)) ∙ length-set p n (f n)

  get_or-writes :
      (ns : List ℕ) (p : List A) (i : ℕ)
      → i < length p
      → get_or (foldl (λ p n. set p n (f n)) p ns) i d ≡ (if elem i ns then f i else get_or p i d)
  get_or-writes [] p i h = refl
  get_or-writes (n ∷ ns) p i h =
      let rest = get_or-writes ns (set p n (f n)) i (omega (arith, length-set p n (f n))) in
      rw rest (
        rw (read_after d p n i (f n) h) (elim (Bool-cases (n == i)) [
          | inl e ↦ let same : n ≡ i = ==→eq n i e in rw same (ground arith)
          | inr e ↦ ground arith
        ]))

-- For at least one worker, and in any order in which all of them run, the region's array is
-- the one that InitParent of src/bfs.cc makes, whatever the new array held.
pub init_parent_region_lem :
    (g : Graph) (nthreads : ℕ) (order : List ℕ) (fresh : ℤ)
    → 0 < nthreads
    → AllRun nthreads order
    → init_parent_region g nthreads order fresh ≡ init_parent g
unfolding init_parent_region init_parent_worker init_parent
init_parent_region_lem g nthreads order fresh h all =
    let n = g.num_nodes in
    let tids = run_order nthreads order in
    let entry : ℕ → ℤ = λ v. initial_entry (out_degree g v) in
    let new = replicate n fresh in
    let width : length new ≡ n = length-replicate n fresh in
    let size = length-writes entry minus_one (shares n nthreads tids) new in
    rw
      (
        run_parallel_lem nthreads order (init_parent_worker g) new h,
        foldl-shares n nthreads (λ p v. set p v (entry v)) tids new,
      )
      (entries_ext _ _ minus_one (size ∙ width ∙ sym (length-init_parent g)) (λ i lt.
        let inside : i < n = omega (arith, size, width) in
        let dealt = elem-shares_all n nthreads tids i h (run_order-AllRun nthreads order h all) in
        let written =
          get_or-writes entry minus_one (shares n nthreads tids) new i (omega (arith, width)) in
        let once : elem i (shares n nthreads tids) ≡ true = ground arith in
        rw (written, once)
          (sym (get_or-map-range entry 0 n i minus_one inside ∙ ap entry (Nat.zero-add i)))))

length-clean_entry : (p : List ℤ) (n : ℕ) → length (clean_entry p n) ≡ length p
unfolding clean_entry
length-clean_entry p n = elim (Bool-cases (ltb_ℤ (parent_at p n) minus_one)) [
  | inl e ↦ rw e (length-set p n minus_one)
  | inr e ↦ rw e refl
]

parent_at-clean_entry :
    (p : List ℤ) (n i : ℕ)
    → i < length p
    → parent_at (clean_entry p n) i ≡ (if n == i then cleaned (parent_at p i) else parent_at p i)
unfolding clean_entry cleaned
parent_at-clean_entry p n i h = elim (Bool-cases (n == i)) [
  | inl q ↦
      let same : n ≡ i = ==→eq n i q in
      elim (Bool-cases (ltb_ℤ (parent_at p i) minus_one)) [
        | inl e ↦ rw (q, same, e) (read_after minus_one p i i minus_one h ∙ ground arith)
        | inr e ↦ rw (q, same, e) refl
      ]
  | inr q ↦ elim (Bool-cases (ltb_ℤ (parent_at p n) minus_one)) [
    | inl e ↦ rw e (read_after minus_one p n i minus_one h ∙ ground arith)
    | inr e ↦ rw (q, e) refl
  ]
]

-- Cleaning an entry again changes nothing.
cleaned_twice : (e : ℤ) → cleaned (cleaned e) ≡ cleaned e
unfolding cleaned
cleaned_twice e = elim (Bool-cases (ltb_ℤ e minus_one)) [
  | inl q ↦ rw q refl
  | inr q ↦ rw (q, q) refl
]

length-sweep : (ns : List ℕ) (p : List ℤ) → length (foldl clean_entry p ns) ≡ length p
length-sweep [] p = refl
length-sweep (n ∷ ns) p = length-sweep ns (clean_entry p n) ∙ length-clean_entry p n

parent_at-sweep :
    (ns : List ℕ) (p : List ℤ) (i : ℕ)
    → i < length p
    → parent_at (foldl clean_entry p ns) i
      ≡ (if elem i ns then cleaned (parent_at p i) else parent_at p i)
parent_at-sweep [] p i h = refl
parent_at-sweep (n ∷ ns) p i h =
    let rest = parent_at-sweep ns (clean_entry p n) i (omega (arith, length-clean_entry p n)) in
    rw (rest, parent_at-clean_entry p n i h) (ground (arith, cleaned_twice (parent_at p i)))

-- For at least one worker, and in any order in which all of them run, the last sweep over an
-- array gives what the sweep of src/bfs.cc gives.
pub cleanup_region_lem :
    (nthreads : ℕ) (order : List ℕ) (parent : List ℤ)
    → 0 < nthreads
    → AllRun nthreads order
    → cleanup_region (length parent) nthreads order parent ≡ cleanup parent
unfolding cleanup_region cleanup_worker
cleanup_region_lem nthreads order parent h all =
    let n = length parent in
    let tids = run_order nthreads order in
    let size = length-sweep (shares n nthreads tids) parent in
    rw
      (
        run_parallel_lem nthreads order (cleanup_worker n) parent h,
        foldl-shares n nthreads clean_entry tids parent,
      )
      (entries_ext _ _ minus_one (size ∙ sym (length-cleanup parent)) (λ i lt.
        let dealt = elem-shares_all n nthreads tids i h (run_order-AllRun nthreads order h all) in
        let once : elem i (shares n nthreads tids) ≡ true = ground arith in
        rw
          (
            parent_at-sweep (shares n nthreads tids) parent i (omega arith),
            once,
            parent_at-cleanup parent i,
          )
          refl))
