-- ===== src/Pool/Moves.antt =====
-- What holds at the barrier (SpinBarrier of src/bfs_pthread.cc), and the actions inside a round.
use gapbs_bfs_experiment.Base.{
  ℕ, suc, ◌+◌, ◌<◌, ◌≡◌, refl, ap, ◌∙◌, sym, subst, arith, Bool, false, length, get_or, set, ◌==◌,
  inl, inr, Bool-cases, length-set, get_or-set,
}
use gapbs_bfs_experiment.Pool.Barrier.{
  idle, loaded, last_arriver, counter_reset, waking, spinning, Wait, looking, calling, asleep,
  after_look, Thread, Barrier, outside, same_phase, act, step,
}
use gapbs_bfs_experiment.Pool.Tally.{tally, tally-set, tally-le, one-le-tally}
use gapbs_bfs_experiment.Pool.Modes.{
  parity, here, closing, reset_done, Fits, Mode, is_closing, has_reset, here-le, flipped, Mode-same,
  Mode-open, Mode-full,
}

pub record Inv (n : ℕ) (b : Barrier) : Type 0 where
  pub round : ℕ
  pub team : length b.threads ≡ n
  pub totals : b.total ≡ n
  pub phase_is : b.phase ≡ parity round
  pub fits :
      (i : ℕ)
      → i < n
      → Fits round (get_or b.threads i outside).rounds (get_or b.threads i outside).place
  pub mode :
      Mode n
        (tally (here round) b.threads)
        (tally is_closing b.threads)
        (tally has_reset b.threads)
        b.count

module _ (n : ℕ) (b : Barrier) (inv : Inv n b) (i : ℕ) (lt : i < n) where
  abbrev mine : Thread
  mine = get_or b.threads i outside

  abbrev r : ℕ
  r = inv.round

  -- A step inside the round.
  Inv-update :
      (t' : Thread) (count' : ℕ)
      → Fits r t'.rounds t'.place
      → Mode n
          (tally (here r) (set b.threads i t'))
          (tally is_closing (set b.threads i t'))
          (tally has_reset (set b.threads i t'))
          count'
      → Inv n (record b { count = count'; threads = set b.threads i t' })
  Inv-update t' count' f m = record {
    round = r;
    team = length-set b.threads i t' ∙ inv.team;
    totals = inv.totals;
    phase_is = inv.phase_is;
    fits = λ j lj.
        let look = get_or-set b.threads i j t' outside (omega (arith, inv.team)) in
        elim (Bool-cases (i == j)) [
          | inl e ↦ rw (look, e) f
          | inr e ↦ rw (look, e) (inv.fits j lj)
        ];
    mode = m;
  }

  pub change :
      (f : Thread → ℕ) (t' : Thread)
      → tally f (set b.threads i t') + f mine ≡ tally f b.threads + f t'
  change f t' = tally-set f b.threads i t' (omega (arith, inv.team))

  pub Inv-idle : mine.place ≡ idle → Inv n (step b i)
  unfolding step act
  Inv-idle e =
      let t' : Thread = record mine { place = loaded b.phase } in
      let old = subst (Fits r mine.rounds) e (inv.fits i lt) in
      let was_here : here r mine ≡ 0 = rw e (ground arith) in
      let a = change (here r) t' in
      let c = change is_closing t' in
      let d = change has_reset t' in
      let c0 = ap closing e in
      let d0 = ap reset_done e in
      rw e (
        Inv-update t' b.count (old, inv.phase_is)
          (Mode-same n _ _ _ b.count _ _ _ (ground arith) (omega arith) (omega arith) inv.mode))

  pub Inv-loaded : (p : Bool) → mine.place ≡ loaded p → Inv n (step b i)
  unfolding step act
  Inv-loaded p e =
      let old = subst (Fits r mine.rounds) e (inv.fits i lt) in
      let was_here : here r mine ≡ 0 = rw e (ground arith) in
      let c0 = ap closing e in
      let d0 = ap reset_done e in
      let wide = inv.team in
      elim (Bool-cases (b.count + 1 == b.total)) [
        | inl q ↦
            let t' : Thread = record mine { place = last_arriver p } in
            let now : here r t' ≡ 1 = ground arith in
            let a = change (here r) t' in
            let c = change is_closing t' in
            let d = change has_reset t' in
            let most = tally-le (here r) (here-le r) (set b.threads i t') in
            let size = length-set b.threads i t' in
            let was = Mode-open n _ _ _ b.count (omega arith) inv.mode in
            rw (e, q)
              (Inv-update t' (b.count + 1) old (
                inr (
                  inl (
                    omega arith,
                    omega arith,
                    ground (arith, inv.totals),
                    ground (arith, inv.totals),
                  ))))
        | inr q ↦
            let t' : Thread = record mine { place = spinning p (looking b.spin) } in
            let now : here r t' ≡ 1 = ground arith in
            let a = change (here r) t' in
            let c = change is_closing t' in
            let d = change has_reset t' in
            let most = tally-le (here r) (here-le r) (set b.threads i t') in
            let size = length-set b.threads i t' in
            let was = Mode-open n _ _ _ b.count (omega arith) inv.mode in
            rw (e, q)
              (Inv-update t' (b.count + 1) (old.1 ∙ ap parity (sym old.0), inl old.0)
                (inl (omega arith, omega arith, ground (arith, inv.totals), omega arith)))
      ]

  pub Inv-last : (p : Bool) → mine.place ≡ last_arriver p → Inv n (step b i)
  unfolding step act
  Inv-last p e =
      let t' : Thread = record mine { place = counter_reset p } in
      let old = subst (Fits r mine.rounds) e (inv.fits i lt) in
      let was_here : here r mine ≡ 1 = rw e (ground arith) in
      let now : here r t' ≡ 1 = ground arith in
      let a = change (here r) t' in
      let c = change is_closing t' in
      let d = change has_reset t' in
      let c0 = ap closing e in
      let d0 = ap reset_done e in
      let one = one-le-tally is_closing b.threads i (omega (arith, inv.team)) in
      let was = Mode-full n _ _ _ b.count (omega arith) inv.mode in
      rw e (Inv-update t' 0 old (inr (inr (omega arith, omega arith, omega arith, refl))))

  -- A thread in the loop that goes on there.
  Inv-stays :
      (p : Bool) (w w' : Wait)
      → mine.place ≡ spinning p w
      → let t' : Thread = record mine { place = spinning p w' } in
        Inv n (record b { threads = set b.threads i t' })
  Inv-stays p w w' e =
      let t' : Thread = record mine { place = spinning p w' } in
      let old = subst (Fits r mine.rounds) e (inv.fits i lt) in
      let as_here : here r t' ≡ here r mine = rw e refl in
      let a = change (here r) t' in
      let c = change is_closing t' in
      let d = change has_reset t' in
      let c0 = ap closing e in
      let d0 = ap reset_done e in
      Inv-update t' b.count old
        (Mode-same n _ _ _ b.count _ _ _ (omega arith) (omega arith) (omega arith) inv.mode)

  -- A thread that has seen the phase flipped.
  Inv-leaves :
      (p : Bool) (w : Wait)
      → mine.place ≡ spinning p w
      → same_phase b.phase p ≡ false
      → let t' : Thread = record { place = idle; rounds = mine.rounds + 1 } in
        Inv n (record b { threads = set b.threads i t' })
  Inv-leaves p w e q =
      let old = subst (Fits r mine.rounds) e (inv.fits i lt) in
      let t' : Thread = record { place = idle; rounds = mine.rounds + 1 } in
      let late : suc mine.rounds ≡ r = elim old.1 [
        | inl now ↦ absurd (flipped b.phase p q (inv.phase_is ∙ ap parity (sym now) ∙ sym old.0))
        | inr before ↦ before
      ] in
      let was_here : here r mine ≡ 0 = ground arith in
      let a = change (here r) t' in
      let c = change is_closing t' in
      let d = change has_reset t' in
      let c0 = ap closing e in
      let d0 = ap reset_done e in
      Inv-update t' b.count (omega arith)
        (Mode-same n _ _ _ b.count _ _ _ (ground arith) (omega arith) (omega arith) inv.mode)

  pub Inv-spinning : (p : Bool) (w : Wait) → mine.place ≡ spinning p w → Inv n (step b i)
  unfolding step act
  Inv-spinning p (looking k) e = elim (Bool-cases (same_phase b.phase p)) [
    | inl q ↦ rw (e, q) (Inv-stays p (looking k) (after_look k) e)
    | inr q ↦ rw (e, q) (Inv-leaves p (looking k) e q)
  ]
  Inv-spinning p calling e = elim (Bool-cases (same_phase b.phase p)) [
    | inl q ↦ rw (e, q) (Inv-stays p calling asleep e)
    | inr q ↦ rw (e, q) (Inv-stays p calling (looking 0) e)
  ]
  Inv-spinning p asleep e =
      let a = change (here r) mine in
      let c = change is_closing mine in
      let d = change has_reset mine in
      rw e (
        Inv-update mine b.count (inv.fits i lt)
          (Mode-same n _ _ _ b.count _ _ _ (omega arith) (omega arith) (omega arith) inv.mode))

  pub Inv-to_idle :
      mine.place ≡ waking
      → let t' : Thread = record mine { place = idle } in
        Inv n (record b { threads = set b.threads i t' })
  Inv-to_idle e =
      let t' : Thread = record mine { place = idle } in
      let old = subst (Fits r mine.rounds) e (inv.fits i lt) in
      let was_here : here r mine ≡ 0 = rw e (ground arith) in
      let a = change (here r) t' in
      let c = change is_closing t' in
      let d = change has_reset t' in
      let c0 = ap closing e in
      let d0 = ap reset_done e in
      Inv-update t' b.count old
        (Mode-same n _ _ _ b.count _ _ _ (ground arith) (omega arith) (omega arith) inv.mode)
