-- ===== src/Workers/Ranges.antt =====
-- How bfs.cc deals a loop of n iterations to its workers (StaticRange), and the workers' runs.
use native.Mathlib.Nat
use gapbs_bfs_experiment.Base.{
  ℕ, zero, suc, ◌+◌, ◌-◌, ◌*◌, ◌/◌, ◌%◌, ◌<◌, min, ◌≡◌, refl, ap, ◌∙◌, sym, arith, true, List, [],
  ◌∷◌, ◌++◌, range, elem, elem-append, elem-range, ==→eq, if◌then◌else◌, ltb, ◌==◌, Bool-cases, inl,
  inr,
}

-- The bounds of the iterations of worker `tid`: begin and end.
unfoldable pub static_range : ℕ → ℕ → ℕ → ℕ × ℕ
static_range n nthreads tid =
    let q = n / nthreads in
    let r = n % nthreads in
    if ltb tid r then ((q + 1) * tid, (q + 1) * tid + q + 1) else (q * tid + r, q * tid + r + q)

-- for (i = my_begin; i < my_end; i++)
unfoldable pub share : ℕ → ℕ → ℕ → List ℕ
unfolding static_range
share n nthreads tid =
    let (my_begin, my_end) = static_range n nthreads tid in range my_begin (my_end - my_begin)

-- The iterations that the workers `tids` go over, worker after worker.
unfoldable pub shares : ℕ → ℕ → List ℕ → List ℕ
shares n nthreads [] = []
shares n nthreads (t ∷ tids) = share n nthreads t ++ shares n nthreads tids

range_cong : {a b c d : ℕ} → a ≡ c → b ≡ d → range a b ≡ range c d
range_cong p q = cc

pub range-append :
    (first middle a b : ℕ)
    → first + a ≡ middle
    → range first a ++ range middle b ≡ range first (a + b)
range-append first middle zero b h = range_cong (omega arith) (omega arith)
range-append first middle (suc a) b h =
    let same : suc (a + b) ≡ suc a + b = omega arith in
    ap (◌∷◌ first) (range-append (suc first) middle a b (omega arith)) ∙ ap (range first) same

module _ (n nthreads : ℕ) where
  -- Worker `tid` begins where the workers before it have ended.
  static_begin : ℕ → ℕ
  static_begin tid = n / nthreads * tid + min tid (n % nthreads)

  static_width : ℕ → ℕ
  static_width tid = n / nthreads + (if ltb tid (n % nthreads) then 1 else 0)

  begin_next : (tid : ℕ) → static_begin (suc tid) ≡ static_begin tid + static_width tid
  unfolding static_begin static_width
  begin_next tid = ground (arith, Nat.mul-suc (n / nthreads) tid)

  share-range : (tid : ℕ) → share n nthreads tid ≡ range (static_begin tid) (static_width tid)
  unfolding share static_range static_begin static_width
  share-range tid = elim (Bool-cases (ltb tid (n % nthreads))) [
    | inl e ↦ rw e (range_cong (ground (arith, Nat.add-mul (n / nthreads) 1 tid)) (omega arith))
    | inr e ↦ rw e (range_cong (ground arith) (omega arith))
  ]

  static_begin_zero : static_begin 0 ≡ 0
  unfolding static_begin
  static_begin_zero = omega (arith, Nat.mul-zero (n / nthreads))

  width_sum : ℕ → ℕ → ℕ
  width_sum tid zero = 0
  width_sum tid (suc count) = static_width tid + width_sum (suc tid) count

  shares_run :
      (tid count : ℕ)
      → shares n nthreads (range tid count) ≡ range (static_begin tid) (width_sum tid count)
  unfolding shares width_sum
  shares_run tid zero = refl
  shares_run tid (suc count) =
      rw (share-range tid, shares_run (suc tid) count) (range-append _ _ _ _ (sym (begin_next tid)))

  width_sum_lem :
      (tid count last : ℕ)
      → tid + count ≡ last
      → static_begin tid + width_sum tid count ≡ static_begin last
  unfolding width_sum
  width_sum_lem tid zero last h =
      let same : tid ≡ last = omega arith in omega (arith, ap static_begin same)
  width_sum_lem tid (suc count) last h =
      omega (arith, begin_next tid, width_sum_lem (suc tid) count last (omega arith))

  static_begin_end : 0 < nthreads → static_begin nthreads ≡ n
  unfolding static_begin
  static_begin_end h = omega (arith, Nat.div-add-mod' n nthreads, Nat.mod-lt n h)

  -- For at least one worker: the iterations dealt to the workers 0 to nthreads - 1, worker
  -- after worker, are those of the whole loop in its order, so each index below n is dealt
  -- once, and no other index is.
  pub shares_lem : 0 < nthreads → shares n nthreads (range 0 nthreads) ≡ range 0 n
  shares_lem h =
      shares_run 0 nthreads
      ∙ range_cong static_begin_zero (
          omega (
            arith,
            width_sum_lem 0 nthreads nthreads (omega arith),
            static_begin_zero,
            static_begin_end h,
          ))

  pub elem-shares :
      (i : ℕ) (tids : List ℕ)
      → elem i (shares n nthreads tids) ≡ true
      → (t : ℕ) × (elem t tids ≡ true) × (elem i (share n nthreads t) ≡ true)
  unfolding shares
  elem-shares i [] h = cc
  elem-shares i (t ∷ tids) h = elim (Bool-cases (elem i (share n nthreads t))) [
    | inl e ↦ (t, ground arith, e)
    | inr e ↦
        let tail : elem i (shares n nthreads tids) ≡ true =
          ground (arith, elem-append i (share n nthreads t) (shares n nthreads tids)) in
        let (t', member, found) = elem-shares i tids tail in (t', ground arith, found)
  ]

  pub shares-elem :
      (i t : ℕ) (tids : List ℕ)
      → elem t tids ≡ true
      → elem i (share n nthreads t) ≡ true
      → elem i (shares n nthreads tids) ≡ true
  unfolding shares
  shares-elem i t [] m h = cc
  shares-elem i t (t' ∷ tids) m h =
      rw (elem-append i (share n nthreads t') (shares n nthreads tids))
        (elim (Bool-cases (t == t')) [
          | inl e ↦ let same = ==→eq t t' e in rw (← same, h) refl
          | inr e ↦ ground (arith, shares-elem i t tids (ground arith) h)
        ])

  -- The worker that an iteration is dealt to.
  pub owner :
      (i : ℕ)
      → 0 < nthreads
      → i < n
      → (t : ℕ) × (t < nthreads) × (elem i (share n nthreads t) ≡ true)
  owner i h lt =
      let (t, member, found) =
        elem-shares i (range 0 nthreads) (rw (shares_lem h) (ground (arith, elem-range i 0 n))) in
      (t, ground (arith, elem-range t 0 nthreads), found)

  pub share-lt : (i t : ℕ) → t < nthreads → elem i (share n nthreads t) ≡ true → i < n
  share-lt i t lt h =
      let all : elem i (shares n nthreads (range 0 nthreads)) ≡ true =
        shares-elem i t (range 0 nthreads) (ground (arith, elem-range t 0 nthreads)) h in
      let dealt : elem i (range 0 n) ≡ true = ap (elem i) (sym (shares_lem (omega arith))) ∙ all in
      ground (arith, elem-range i 0 n)
