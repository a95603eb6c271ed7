-- ===== src/Tests/Team.antt =====
-- Two threads at the barrier of src/bfs_pthread.cc.
use gapbs_bfs_experiment.Base.{
  false, ℕ, ◌≤◌, ◌≡◌, ◌≢◌, ◌<◌, refl, arith, true, List, [], ◌∷◌, get_or,
}
use gapbs_bfs_experiment.Pool.Barrier.{
  idle, loaded, waking, spinning, asleep, outside, init, run, step, act, arrivals,
}
use gapbs_bfs_experiment.Pool.Progress.{some_thread_moves}
use gapbs_bfs_experiment.Pool.Rounds.{rounds-le-arrivals}

-- Both read the phase, thread 0 arrives, spins once and sleeps, thread 1 arrives last, resets the
-- counter, flips the phase and wakes thread 0, thread 0 leaves, and thread 1 is back.
abbrev interleaving : List ℕ
interleaving = 0 ∷ 1 ∷ 0 ∷ 0 ∷ 0 ∷ 0 ∷ 1 ∷ 1 ∷ 1 ∷ 1 ∷ 0 ∷ 1 ∷ []

run_round : run (init 2 1) interleaving ≡ record {
  total = 2;
  spin = 1;
  count = 0;
  phase = true;
  threads = record { place = idle; rounds = 1 } ∷ record { place = loaded true; rounds = 1 } ∷ [];
}
unfolding run step act init
run_round = refl

-- Before it is woken, thread 0 does nothing.
sleeps_on : run (init 2 1) (0 ∷ 1 ∷ 0 ∷ 0 ∷ 0 ∷ 0 ∷ 1 ∷ 1 ∷ 1 ∷ 0 ∷ 0 ∷ []) ≡ record {
  total = 2;
  spin = 1;
  count = 0;
  phase = true;
  threads =
      record { place = spinning false asleep; rounds = 0 }
      ∷ record { place = waking; rounds = 1 }
      ∷ [];
}
unfolding run step act init
sleeps_on = refl

rounds-le-arrivals_example :
    let b = run (init 2 1) interleaving in
    (get_or b.threads 0 outside).rounds ≤ arrivals (get_or b.threads 1 outside)
rounds-le-arrivals_example =
    rounds-le-arrivals 2 1 interleaving 0 1 (omega arith) (omega arith) (omega arith)

some_thread_moves_example :
    let b = run (init 2 1) interleaving in
    (i : ℕ) × (i < 2) × (get_or (step b i).threads i outside ≢ get_or b.threads i outside)
some_thread_moves_example = some_thread_moves 2 1 interleaving (omega arith) (omega arith)
