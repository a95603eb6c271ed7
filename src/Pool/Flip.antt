-- ===== src/Pool/Flip.antt =====
-- The flip of the phase at the barrier (SpinBarrier of src/bfs_pthread.cc) begins the next round.
use gapbs_bfs_experiment.Base.{
  ℕ, suc, ◌+◌, ◌<◌, ◌≡◌, ap, ◌∙◌, subst, arith, Bool, false, not, length, get_or, set,
  if◌then◌else◌, ◌==◌, inl, inr, Bool-cases, length-set, get_or-set, ==→eq,
}
use gapbs_bfs_experiment.Pool.Barrier.{
  counter_reset, waking, spinning, Wait, Thread, Barrier, outside, act, step, waiting,
}
use gapbs_bfs_experiment.Pool.Tally.{tally, tally-full, tally-zero, one-le-tally, two-le-tally}
use gapbs_bfs_experiment.Pool.Modes.{
  here, closing, reset_done, Fits, is_closing, has_reset, here-le, spinner, Mode-reset,
}
use gapbs_bfs_experiment.Pool.Moves.{Inv, change}

module _ (n : ℕ) (b : Barrier) (inv : Inv n b) (i : ℕ) (lt : i < n) where
  abbrev mine : Thread
  mine = get_or b.threads i outside

  abbrev r : ℕ
  r = inv.round

  module _ (p : Bool) (e : mine.place ≡ counter_reset p) where
    resetting :
        (tally is_closing b.threads ≡ 0)
        × ((tally has_reset b.threads ≡ 1) × ((tally (here r) b.threads ≡ n) × (b.count ≡ 0)))
    resetting =
        let d0 = ap reset_done e in
        let one = one-le-tally has_reset b.threads i (omega (arith, inv.team)) in
        Mode-reset n _ _ _ b.count (omega arith) inv.mode

    -- While one thread flips the phase, every other spins in the same round.
    others :
        (j : ℕ)
        → j < n
        → i == j ≡ false
        → ((get_or b.threads j outside).rounds ≡ r)
          × ((q : Bool) × ((v : Wait) × ((get_or b.threads j outside).place ≡ spinning q v)))
    others j lj apart =
        let was = resetting in
        let d0 = ap reset_done e in
        let other = get_or b.threads j outside in
        let bound : j < length b.threads = omega (arith, inv.team) in
        let two = two-le-tally has_reset b.threads i j (omega (arith, inv.team)) bound apart in
        let none = one-le-tally is_closing b.threads j bound in
        let in_round =
          tally-full (here r) (here-le r) b.threads j (omega (arith, inv.team)) bound in
        elim (Bool-cases (other.rounds == r)) [
          | inl same ↦
              let arrived : waiting other.place ≡ 1 = ground arith in
              (==→eq other.rounds r same, spinner other.place arrived (omega arith) (omega arith))
          | inr away ↦ absurd (ground arith)
        ]

    abbrev released : Thread
    released = record { place = waking; rounds = mine.rounds + 1 }

    after :
        (j : ℕ)
        → get_or (set b.threads i released) j outside
          ≡ (if i == j then released else get_or b.threads j outside)
    after j = get_or-set b.threads i j released outside (omega (arith, inv.team))

    own_round : mine.rounds ≡ r
    own_round = (subst (Fits r mine.rounds) e (inv.fits i lt)).0

    Fits-after :
        (j : ℕ)
        → j < n
        → Fits
            (suc r)
            (get_or (set b.threads i released) j outside).rounds
            (get_or (set b.threads i released) j outside).place
    Fits-after j lj = elim (Bool-cases (i == j)) [
      | inl q ↦
          let next : mine.rounds + 1 ≡ suc r = omega (arith, own_round) in rw (after j, q) next
      | inr q ↦
          let (same, (phase, (wait, at))) = others j lj q in
          let old = subst (Fits r (get_or b.threads j outside).rounds) at (inv.fits j lj) in
          rw (after j, q, at) (old.0, inr (ap suc same))
    ]

    none_here : tally (here (suc r)) (set b.threads i released) ≡ 0
    none_here = tally-zero (here (suc r)) (set b.threads i released) (λ j lj.
        let bound : j < n = omega (arith, inv.team, length-set b.threads i released) in
        elim (Bool-cases (i == j)) [
          | inl q ↦ rw (after j, q) (ground arith)
          | inr q ↦ let (same, _) = others j bound q in rw (after j, q) (ground arith)
        ])

    -- The flip begins the next round.
    pub Inv-reset : Inv n (step b i)
    unfolding step act
    Inv-reset =
        let was = resetting in
        let c0 = ap closing e in
        let d0 = ap reset_done e in
        let c = change n b inv i lt is_closing released in
        let d = change n b inv i lt has_reset released in
        let none = none_here in
        let old = subst (Fits r mine.rounds) e (inv.fits i lt) in
        rw e (record {
          round = suc r;
          team = length-set b.threads i released ∙ inv.team;
          totals = inv.totals;
          phase_is = ap not old.1;
          fits = Fits-after;
          mode = inl (omega arith, omega arith, omega arith, omega arith);
        })
