-- ===== src/Workers/BottomUp.antt =====
-- BUStep of bfs.cc: the workers take the vertices in chunks from a shared cursor.
use native.Mathlib.Nat
use gapbs_bfs_experiment.Base.{
  sum, foldl-append, ℕ, zero, suc, ◌+◌, ◌-◌, ◌*◌, ◌≤◌, ◌<◌, min, ◌≡◌, refl, ap, ◌∙◌, sym, subst,
  AllLt, elem-lt, arith, true, false, Option, none, some, List, [], ◌∷◌, ◌++◌, foldl, length,
  get_or, set, replicate, range, elem, leb, if◌then◌else◌, inl, inr, Bool-cases, append-nil,
  length-set, length-replicate, dec_le, ℤ, pos, is_neg,
}
use gapbs_bfs_experiment.Bitmap
use gapbs_bfs_experiment.Bitmap.{Bitmap}
use gapbs_bfs_experiment.Graph.{Graph, in_neigh}
use gapbs_bfs_experiment.Bfs.Parent.{parent_at}
use gapbs_bfs_experiment.Bfs.BottomUp.{Sweep, find_parent, adopt, bu_visit, bu_step}
use gapbs_bfs_experiment.Workers.Ranges.{range-append}

-- What the workers share: `next_index` is the cursor, and `awake_parts` has a count for each worker.
pub record BuStepCtx : Type 0 where
  pub parent : List ℤ
  pub next : Bitmap
  pub next_index : ℕ
  pub awake_parts : List ℕ

-- One round of the loop of BUStepWorker; chunk_size is 1024 in the source. A round that finds no vertices
-- left ends the worker.
unfoldable pub bu_round : Graph → ℕ → Bitmap → BuStepCtx → ℕ → BuStepCtx
unfolding bu_visit
bu_round g chunk_size front c tid =
    let start = c.next_index in
    let stop = min (start + chunk_size) g.num_nodes in
    let s =
      foldl (bu_visit g front)
        (record { parent = c.parent; next = c.next; awake_count = get_or c.awake_parts tid 0 })
        (range start (stop - start)) in
    if leb g.num_nodes start then record c { next_index = start + chunk_size } else record {
      parent = s.parent;
      next = s.next;
      next_index = start + chunk_size;
      awake_parts = set c.awake_parts tid s.awake_count;
    }

-- `rounds` says which worker takes each of the chunks. The result is that of bu_step.
unfoldable pub bu_step_region : Graph → ℕ → ℕ → List ℕ → List ℤ → Bitmap → Bitmap → Sweep
unfolding bu_round
bu_step_region g chunk_size nthreads rounds parent front next =
    let c =
      foldl (bu_round g chunk_size front)
        (record {
          parent = parent;
          next = Bitmap.reset next;
          next_index = 0;
          awake_parts = replicate nthreads 0;
        })
        rounds in
    record { parent = c.parent; next = c.next; awake_count = sum c.awake_parts }

sum-set : (xs : List ℕ) (i v : ℕ) → i < length xs → sum (set xs i v) + get_or xs i 0 ≡ sum xs + v
sum-set [] i v h = elim h [ ]
sum-set (x ∷ xs) zero v h = omega arith
sum-set (x ∷ xs) (suc i) v h = omega (arith, sum-set xs i v (omega arith))

get_or-le-sum : (xs : List ℕ) (i : ℕ) → get_or xs i 0 ≤ sum xs
get_or-le-sum [] i = omega arith
get_or-le-sum (x ∷ xs) zero = omega arith
get_or-le-sum (x ∷ xs) (suc i) = omega (arith, get_or-le-sum xs i)

sum-replicate : (n : ℕ) → sum (replicate n 0) ≡ 0
sum-replicate zero = refl
sum-replicate (suc n) = omega (arith, sum-replicate n)

chunk_split :
    (i chunk n : ℕ)
    → range i (min (i + chunk) n - i) ++ range (i + chunk) (n - (i + chunk)) ≡ range i (n - i)
chunk_split i chunk n = elim (dec_le (i + chunk) n) [
  | yes inside ↦
      let width : min (i + chunk) n - i ≡ chunk = omega arith in
      let whole : chunk + (n - (i + chunk)) ≡ n - i = omega arith in
      rw width (range-append i (i + chunk) chunk (n - (i + chunk)) refl ∙ ap (range i) whole)
  | no last ↦
      let width : min (i + chunk) n - i ≡ n - i = omega arith in
      let none_left : n - (i + chunk) ≡ 0 = omega arith in
      rw (width, none_left) (append-nil (range i (n - i)))
]

-- Two sweeps that agree but for their counts.
record Alike (more : ℕ) (s s' : Sweep) : Type 0 where
  parents : s.parent ≡ s'.parent
  nexts : s.next ≡ s'.next
  counts : s.awake_count ≡ s'.awake_count + more

Alike-adopt :
    {more : ℕ} {s s' : Sweep} (u : ℕ) (found : Option ℕ)
    → Alike more s s'
    → Alike more (adopt u found s) (adopt u found s')
unfolding adopt
Alike-adopt u none a = a
Alike-adopt u (some v) a = record {
  parents = ap (λ p. set p u (pos v)) a.parents;
  nexts = ap (λ b. Bitmap.set_bit b u) a.nexts;
  counts = omega (arith, a.counts);
}

module _ (g : Graph) (front : Bitmap) where
  Alike-visit :
      {more : ℕ} {s s' : Sweep} (u : ℕ)
      → Alike more s s'
      → Alike more (bu_visit g front s u) (bu_visit g front s' u)
  unfolding bu_visit
  Alike-visit {more} {s} {s'} u a = elim (Bool-cases (is_neg (parent_at s.parent u))) [
    | inl e ↦
        let e' : is_neg (parent_at s'.parent u) ≡ true =
          ap (λ p. is_neg (parent_at p u)) (sym a.parents) ∙ e in
        rw (e, e') (Alike-adopt u (find_parent front (in_neigh g u 0)) a)
    | inr e ↦
        let e' : is_neg (parent_at s'.parent u) ≡ false =
          ap (λ p. is_neg (parent_at p u)) (sym a.parents) ∙ e in
        rw (e, e') a
  ]

  Alike-sweep :
      {more : ℕ} (us : List ℕ) (s s' : Sweep)
      → Alike more s s'
      → Alike more (foldl (bu_visit g front) s us) (foldl (bu_visit g front) s' us)
  Alike-sweep [] s s' a = a
  Alike-sweep (u ∷ us) s s' a = Alike-sweep us _ _ (Alike-visit u a)

  -- The shared state against one thread's sweep.
  record Matches (c : BuStepCtx) (s : Sweep) : Type 0 where
    parents : c.parent ≡ s.parent
    nexts : c.next ≡ s.next
    counts : sum c.awake_parts ≡ s.awake_count

  module _ (chunk_size : ℕ) where
    Matches-round :
        (c : BuStepCtx) (s : Sweep) (tid : ℕ)
        → tid < length c.awake_parts
        → Matches c s
        → Matches (bu_round g chunk_size front c tid) (
            foldl
              (bu_visit g front)
              s
              (range c.next_index (min (c.next_index + chunk_size) g.num_nodes - c.next_index)))
    unfolding bu_round
    Matches-round c s tid lt m = elim (Bool-cases (leb g.num_nodes c.next_index)) [
      | inl e ↦
          let none_left : min (c.next_index + chunk_size) g.num_nodes - c.next_index ≡ 0 =
            ground arith in
          rw (e, none_left) (record { parents = m.parents; nexts = m.nexts; counts = m.counts })
      | inr e ↦
          let us =
            range c.next_index (min (c.next_index + chunk_size) g.num_nodes - c.next_index) in
          let part = get_or-le-sum c.awake_parts tid in
          let mine : Sweep = record {
            parent = c.parent;
            next = c.next;
            awake_count = get_or c.awake_parts tid 0;
          } in
          let a =
            Alike-sweep {more = sum c.awake_parts - get_or c.awake_parts tid 0} us s mine (record {
              parents = sym m.parents;
              nexts = sym m.nexts;
              counts = omega (arith, part, m.counts);
            }) in
          let total = sum-set c.awake_parts tid (foldl (bu_visit g front) mine us).awake_count lt in
          rw e (record {
            parents = sym a.parents;
            nexts = sym a.nexts;
            counts = omega (arith, part, a.counts, total);
          })
    ]

    next_index-round :
        (c : BuStepCtx) (tid : ℕ)
        → (bu_round g chunk_size front c tid).next_index ≡ c.next_index + chunk_size
    unfolding bu_round
    next_index-round c tid = elim (Bool-cases (leb g.num_nodes c.next_index)) [
      | inl e ↦ rw e refl
      | inr e ↦ rw e refl
    ]

    length-round :
        (c : BuStepCtx) (tid : ℕ)
        → length (bu_round g chunk_size front c tid).awake_parts ≡ length c.awake_parts
    unfolding bu_round
    length-round c tid = elim (Bool-cases (leb g.num_nodes c.next_index)) [
      | inl e ↦ rw e refl
      | inr e ↦ rw e (length-set c.awake_parts tid _)
    ]

    rounds_sweep :
        (rounds : List ℕ) (c : BuStepCtx) (s : Sweep)
        → ((t : ℕ) → elem t rounds ≡ true → t < length c.awake_parts)
        → g.num_nodes ≤ c.next_index + chunk_size * length rounds
        → Matches c s
        → Matches
            (foldl (bu_round g chunk_size front) c rounds)
            (foldl (bu_visit g front) s (range c.next_index (g.num_nodes - c.next_index)))
    rounds_sweep [] c s lt enough m =
        let none_left : g.num_nodes - c.next_index ≡ 0 = omega (arith, Nat.mul-zero chunk_size) in
        rw none_left m
    rounds_sweep (t ∷ rounds) c s lt enough m =
        let c' = bu_round g chunk_size front c t in
        let next = next_index-round c t in
        let us = range c.next_index (min (c.next_index + chunk_size) g.num_nodes - c.next_index) in
        let rest =
          rounds_sweep rounds c' (foldl (bu_visit g front) s us)
            (λ x h. rw (length-round c t) (lt x (ground arith)))
            (omega (arith, next, Nat.mul-suc chunk_size (length rounds)))
            (Matches-round c s t (lt t (ground arith)) m) in
        let whole =
          sym (
            foldl-append (bu_visit g front) us
              (range (c.next_index + chunk_size) (g.num_nodes - (c.next_index + chunk_size))) s)
          ∙ ap (foldl (bu_visit g front) s) (chunk_split c.next_index chunk_size g.num_nodes) in
        subst (Matches (foldl (bu_round g chunk_size front) c' rounds)) whole (
          subst
            (λ i. Matches (foldl (bu_round g chunk_size front) c' rounds) (
              foldl (bu_visit g front) (foldl (bu_visit g front) s us) (range i (g.num_nodes - i))))
            next rest)

-- Whichever workers take the chunks, if there are rounds enough for all the vertices, BUStep
-- of bfs.cc gives the parent array, the next bitmap and the count of BUStep of src/bfs.cc.
pub bu_step_region_lem :
    (g : Graph) (chunk_size nthreads : ℕ) (rounds : List ℕ) (parent : List ℤ) (front next : Bitmap)
    → AllLt nthreads rounds
    → g.num_nodes ≤ chunk_size * length rounds
    → let s = bu_step_region g chunk_size nthreads rounds parent front next in
      let s' = bu_step g parent front next in
      (s.parent ≡ s'.parent) × (s.next ≡ s'.next) × (s.awake_count ≡ s'.awake_count)
unfolding bu_step_region bu_step
bu_step_region_lem g chunk_size nthreads rounds parent front next low enough =
    let start : BuStepCtx = record {
      parent = parent;
      next = Bitmap.reset next;
      next_index = 0;
      awake_parts = replicate nthreads 0;
    } in
    let alone : Sweep = record { parent = parent; next = Bitmap.reset next; awake_count = 0 } in
    let shown =
      rounds_sweep g front chunk_size rounds start alone
        (λ t h. omega (arith, length-replicate {A = ℕ} nthreads 0, elem-lt nthreads t rounds low h))
        (omega arith) (record { parents = refl; nexts = refl; counts = sum-replicate nthreads }) in
    let whole : g.num_nodes - 0 ≡ g.num_nodes = omega arith in
    let m =
      subst
        (λ k.
          Matches g front (foldl (bu_round g chunk_size front) start rounds)
            (foldl (bu_visit g front) alone (range 0 k)))
        whole shown in
    (m.parents, m.nexts, m.counts)
