-- ===== src/Pool/Progress.antt =====
-- At the barrier of src/bfs_pthread.cc some thread can always go on.
use gapbs_bfs_experiment.Base.{
  ℕ, zero, suc, map, length-map, ◌⊎◌, ◌+◌, ◌<◌, ◌≡◌, ◌≢◌, refl, ap, ◌∙◌, sym, arith, Bool, true,
  false, List, length, get_or, set, if◌then◌else◌, ◌==◌, inl, inr, AllLt, get_or-set, eq→==, not,
}
use gapbs_bfs_experiment.Pool.Barrier.{
  Place, idle, loaded, last_arriver, counter_reset, waking, spinning, looking, calling, asleep,
  after_look, wake, Thread, Barrier, outside, init, same_phase, act, step, run, waiting,
}
use gapbs_bfs_experiment.Pool.Sleepers.{is_asleep, Notified, Notified-run, Notified-init}
use gapbs_bfs_experiment.Pool.Tally.{tally, uncounted, counted}
use gapbs_bfs_experiment.Pool.Modes.{
  parity, here, here-le, closing, reset_done, Fits, is_closing, has_reset,
}
use gapbs_bfs_experiment.Pool.Moves.{Inv}
use gapbs_bfs_experiment.Pool.Steps.{Inv-run, Inv-init}

abbrev code : Place → ℕ
code idle = 0
code (loaded p) = 1
code (last_arriver p) = 2
code (counter_reset p) = 3
code waking = 4
code (spinning p asleep) = 5
code (spinning p calling) = 6
code (spinning p (looking k)) = 7 + k

read_back :
    (ts : List Thread) (i : ℕ) (t : Thread) → i < length ts → get_or (set ts i t) i outside ≡ t
read_back ts i t h = rw (get_or-set ts i i t outside h, eq→== i i refl) refl

landed :
    (p : Bool) (k : ℕ) (last : Bool)
    → code (if last then last_arriver p else spinning p (looking k)) ≡ 1
    → ⊥
landed p k true h = omega arith
landed p k false h = omega arith

looked :
    (t : Thread) (p : Bool) (k : ℕ) (waits : Bool)
    → code
        (if waits
          then record t { place = spinning p (after_look k) }
          else record { place = idle; rounds = t.rounds + 1 }).place
      ≡ 7 + k
    → ⊥
looked t p zero true h = omega arith
looked t p (suc k) true h = omega arith
looked t p k false h = omega arith

called : (p : Bool) (waits : Bool) → code (spinning p (if waits then asleep else looking 0)) ≡ 6 → ⊥
called p true h = omega arith
called p false h = omega arith

differ : (p : Bool) → same_phase (not p) p ≡ false
differ true = refl
differ false = refl

-- Who is not asleep goes to another place.
code_changes :
    (b : Barrier) (t : Thread) (p : Place)
    → is_asleep p ≡ false
    → code (act b t p).1.place ≡ code p
    → ⊥
unfolding act
code_changes b t idle m h = omega arith
code_changes b t (loaded p) m h = landed p b.spin (b.count + 1 == b.total) h
code_changes b t (last_arriver p) m h = omega arith
code_changes b t (counter_reset p) m h = omega arith
code_changes b t waking m h = omega arith
code_changes b t (spinning p (looking k)) m h = looked t p k (same_phase b.phase p) h
code_changes b t (spinning p calling) m h = called p (same_phase b.phase p) h
code_changes b t (spinning p asleep) m h = cc

module _ (b : Barrier) (i : ℕ) (h : i < length b.threads) where
  abbrev mine : Thread
  mine = get_or b.threads i outside

  step_thread_at :
      (p : Place)
      → get_or (set (act b mine p).0.threads i (act b mine p).1) i outside ≡ (act b mine p).1
  unfolding act
  step_thread_at idle = read_back b.threads i _ h
  step_thread_at (loaded p) = read_back b.threads i _ h
  step_thread_at (last_arriver p) = read_back b.threads i _ h
  step_thread_at (counter_reset p) = read_back b.threads i _ h
  step_thread_at waking =
      read_back (map wake b.threads) i _ (omega (arith, length-map wake b.threads))
  step_thread_at (spinning p (looking k)) = read_back b.threads i _ h
  step_thread_at (spinning p calling) = read_back b.threads i _ h
  step_thread_at (spinning p asleep) = read_back b.threads i _ h

  step_thread : get_or (step b i).threads i outside ≡ (act b mine mine.place).1
  unfolding step
  step_thread = step_thread_at mine.place

  moves :
      is_asleep mine.place ≡ false
      → get_or (step b i).threads i outside ≢ get_or b.threads i outside
  moves m same = code_changes b mine mine.place m (ap (λ t. code t.place) (sym step_thread ∙ same))

-- Who closes the round is awake.
closing-awake : (p : Place) → 0 < closing p + reset_done p → is_asleep p ≡ false
closing-awake (spinning p w) h = absurd (omega arith)
closing-awake idle h = refl
closing-awake (loaded p) h = refl
closing-awake (last_arriver p) h = refl
closing-awake (counter_reset p) h = refl
closing-awake waking h = refl

-- Who is not in the round is awake, or sleeps on a phase that is over.
not_in-awake :
    (b : Barrier) (r : ℕ) (t : Thread) (p : Place)
    → t.place ≡ p
    → b.phase ≡ parity r
    → Fits r t.rounds p
    → here r t ≡ 0
    → (is_asleep p ≡ false)
      ⊎ ((q : Bool) × (p ≡ spinning q asleep) × (same_phase b.phase q ≡ false))
not_in-awake b r t (spinning p asleep) e ph fit out =
    let one = ap waiting e in
    elim fit.1 [
      | inl now ↦ absurd (ground arith)
      | inr before ↦
          let old : b.phase ≡ not p = ph ∙ ap parity (sym before) ∙ ap not (sym fit.0) in
          inr (p, refl, rw old (differ p))
    ]
not_in-awake b r t (spinning p (looking k)) e ph fit out = inl refl
not_in-awake b r t (spinning p calling) e ph fit out = inl refl
not_in-awake b r t idle e ph fit out = inl refl
not_in-awake b r t (loaded p) e ph fit out = inl refl
not_in-awake b r t (last_arriver p) e ph fit out = inl refl
not_in-awake b r t (counter_reset p) e ph fit out = inl refl
not_in-awake b r t waking e ph fit out = inl refl

module _ (n : ℕ) (b : Barrier) (inv : Inv n b) (note : Notified n b) where
  abbrev Awake : Type 0
  Awake = (i : ℕ) × (i < n) × (is_asleep (get_or b.threads i outside).place ≡ false)

  -- Where arrivals are open, a thread is not in the round; if it sleeps, its waker is awake.
  open-Awake : tally (here inv.round) b.threads < n → Awake
  open-Awake fewer =
      let (i, lt, out) =
        uncounted (here inv.round) b.threads (here-le inv.round) (omega (arith, inv.team)) in
      let t = get_or b.threads i outside in
      let bound : i < n = omega (arith, inv.team) in
      elim (not_in-awake b inv.round t t.place refl inv.phase_is (inv.fits i bound) out) [
        | inl awake ↦ (i, bound, awake)
        | inr late ↦
            let (q, at, old) = late in
            elim (note.tells i bound q at) [
              | inl same ↦ cc (sym old ∙ same)
              | inr waker ↦ (waker.0, waker.1, ap is_asleep waker.2)
            ]
      ]

  some-Awake : Awake
  some-Awake = elim inv.mode [
    | inl m ↦ open-Awake (omega (arith, m.2))
    | inr m ↦ elim m [
      | inl full ↦
          let (i, lt, one) = counted is_closing b.threads (omega (arith, full.0)) in
          (i, omega (arith, inv.team), closing-awake _ (omega arith))
      | inr emptied ↦
          let (i, lt, one) = counted has_reset b.threads (omega (arith, emptied.1)) in
          (i, omega (arith, inv.team), closing-awake _ (omega arith))
    ]
  ]

-- In every interleaving of the actions of at least one thread, from a new barrier and for any number of
-- spins: there is a thread whose next action changes its state, so the team is never stuck, though a
-- thread in FutexWait does nothing until another one calls FutexWakeAll.
pub some_thread_moves :
    (n spin : ℕ) (schedule : List ℕ)
    → 0 < n
    → AllLt n schedule
    → let b = run (init n spin) schedule in
      (i : ℕ) × (i < n) × (get_or (step b i).threads i outside ≢ get_or b.threads i outside)
some_thread_moves n spin schedule h low =
    let b0 = init n spin in
    let b = run b0 schedule in
    let inv = Inv-run n schedule b0 low (Inv-init n spin h) in
    let note = Notified-run n schedule b0 low (Inv-init n spin h) (Notified-init n spin) in
    let (i, lt, awake) = some-Awake n b inv note in
    (i, lt, moves b i (omega (arith, inv.team)) awake)
