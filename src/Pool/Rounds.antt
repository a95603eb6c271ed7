-- ===== src/Pool/Rounds.antt =====
-- No thread leaves a round of the barrier (SpinBarrier of src/bfs_pthread.cc) before all have arrived.
use gapbs_bfs_experiment.Base.{ℕ, ◌≤◌, ◌<◌, ◌≡◌, refl, ap, arith, List, get_or, inl, inr, AllLt}
use gapbs_bfs_experiment.Pool.Barrier.{
  Place, idle, loaded, last_arriver, counter_reset, waking, spinning, Thread, outside, init, run,
  waiting, arrivals,
}
use gapbs_bfs_experiment.Pool.Modes.{Fits}
use gapbs_bfs_experiment.Pool.Steps.{Inv-run, Inv-init}

-- A thread has arrived in every round that is over.
Fits-arrivals : (r : ℕ) (t : Thread) (p : Place) → t.place ≡ p → Fits r t.rounds p → r ≤ arrivals t
unfolding arrivals
Fits-arrivals r t idle e h = omega (arith, h)
Fits-arrivals r t (loaded p) e h = omega (arith, h.0)
Fits-arrivals r t (last_arriver p) e h = omega (arith, h.0)
Fits-arrivals r t (counter_reset p) e h = omega (arith, h.0)
Fits-arrivals r t waking e h = omega (arith, h)
Fits-arrivals r t (spinning p w) e h =
    let one = ap waiting e in elim h.1 [ inl q ↦ omega arith | inr q ↦ omega arith ]

Fits-rounds : (r k : ℕ) (p : Place) → Fits r k p → k ≤ r
Fits-rounds r k idle h = omega (arith, h)
Fits-rounds r k (loaded p) h = omega (arith, h.0)
Fits-rounds r k (last_arriver p) h = omega (arith, h.0)
Fits-rounds r k (counter_reset p) h = omega (arith, h.0)
Fits-rounds r k waking h = omega (arith, h)
Fits-rounds r k (spinning p w) h = elim h.1 [ inl q ↦ omega arith | inr q ↦ omega arith ]

-- In every interleaving of the actions of at least one thread, from a new barrier and for any number of
-- spins: a thread has left a round only if every thread has arrived in it.
pub rounds-le-arrivals :
    (n spin : ℕ) (schedule : List ℕ) (i j : ℕ)
    → AllLt n schedule
    → i < n
    → j < n
    → let b = run (init n spin) schedule in
      (get_or b.threads i outside).rounds ≤ arrivals (get_or b.threads j outside)
rounds-le-arrivals n spin schedule i j low hi hj =
    let b = run (init n spin) schedule in
    let inv = Inv-run n schedule (init n spin) low (Inv-init n spin (omega arith)) in
    let one = get_or b.threads i outside in
    let other = get_or b.threads j outside in
    omega (
      arith,
      Fits-rounds inv.round one.rounds one.place (inv.fits i hi),
      Fits-arrivals inv.round other other.place refl (inv.fits j hj),
    )
