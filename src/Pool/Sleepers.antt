-- ===== src/Pool/Sleepers.antt =====
-- Who sleeps at the barrier of src/bfs_pthread.cc is woken: FutexWait and FutexWakeAll.
use gapbs_bfs_experiment.Base.{
  ℕ, zero, suc, map, length-map, ◌+◌, ◌<◌, ◌≡◌, refl, ap, ◌∙◌, sym, arith, Bool, true, false, not,
  List, [], ◌∷◌, length, get_or, set, if◌then◌else◌, ◌==◌, ◌⊎◌, inl, inr, AllLt, Bool-cases,
  get_or-replicate, get_or-set, ==→eq,
}
use gapbs_bfs_experiment.Pool.Barrier.{
  Place, idle, loaded, last_arriver, counter_reset, waking, spinning, looking, calling, asleep,
  after_look, woken, wake, Thread, Barrier, outside, init, same_phase, act, step, run,
}
use gapbs_bfs_experiment.Pool.Moves.{Inv}
use gapbs_bfs_experiment.Pool.Steps.{Inv-step, get_or-wake}

abbrev pub is_asleep : Place → Bool
is_asleep (spinning p asleep) = true
is_asleep (spinning p (looking k)) = false
is_asleep (spinning p calling) = false
is_asleep idle = false
is_asleep (loaded p) = false
is_asleep (last_arriver p) = false
is_asleep (counter_reset p) = false
is_asleep waking = false

abbrev is_waking : Place → Bool
is_waking waking = true
is_waking idle = false
is_waking (loaded p) = false
is_waking (last_arriver p) = false
is_waking (counter_reset p) = false
is_waking (spinning p w) = false

-- The phase that a waiting thread waits to be flipped.
abbrev phase_of : Place → Bool
phase_of (spinning p w) = p
phase_of idle = false
phase_of (loaded p) = p
phase_of (last_arriver p) = p
phase_of (counter_reset p) = p
phase_of waking = false

-- A thread about to call FutexWakeAll.
abbrev pub Waker : ℕ → Barrier → Type 0
Waker n b = (k : ℕ) × (k < n) × ((get_or b.threads k outside).place ≡ waking)

-- A thread sleeps only on the phase as it is, or while one is about to wake it.
pub record Notified (n : ℕ) (b : Barrier) : Type 0 where
  pub tells :
      (j : ℕ)
      → j < n
      → (p : Bool) → (get_or b.threads j outside).place ≡ spinning p asleep
      → (same_phase b.phase p ≡ true) ⊎ Waker n b

woken-awake : (t : Thread) (p : Place) → t.place ≡ p → is_asleep (woken t p).place ≡ false
woken-awake t (spinning p asleep) e = refl
woken-awake t (spinning p (looking k)) e = ap is_asleep e
woken-awake t (spinning p calling) e = ap is_asleep e
woken-awake t idle e = ap is_asleep e
woken-awake t (loaded p) e = ap is_asleep e
woken-awake t (last_arriver p) e = ap is_asleep e
woken-awake t (counter_reset p) e = ap is_asleep e
woken-awake t waking e = ap is_asleep e

module _ (n : ℕ) (b : Barrier) (team : length b.threads ≡ n) (note : Notified n b) (i : ℕ)
    (lt : i < n) where
  abbrev mine : Thread
  mine = get_or b.threads i outside

  -- An action of a thread that is not a waker, and falls asleep on the phase only.
  module _ (t' : Thread) (c : ℕ) (other : is_waking mine.place ≡ false)
      (sleeps : (p : Bool)
        → t'.place ≡ spinning p asleep
        → (same_phase b.phase p ≡ true) ⊎ (mine.place ≡ spinning p asleep)) where
    abbrev next : Barrier
    next = record b { count = c; threads = set b.threads i t' }

    look :
        (j : ℕ)
        → get_or next.threads j outside ≡ (if i == j then t' else get_or b.threads j outside)
    look j = get_or-set b.threads i j t' outside (omega (arith, team))

    Waker-stays : Waker n b → Waker n next
    Waker-stays (k, lk, at) = elim (Bool-cases (i == k)) [
      | inl e ↦
          let same : mine.place ≡ waking =
            ap (λ x. (get_or b.threads x outside).place) (==→eq i k e) ∙ at in
          cc (sym other ∙ ap is_waking same)
      | inr e ↦ (k, lk, rw (look k, e) at)
    ]

    Notified-kept :
        (p : Bool)
        → (same_phase b.phase p ≡ true) ⊎ Waker n b
        → (same_phase b.phase p ≡ true) ⊎ Waker n next
    Notified-kept p (inl same) = inl same
    Notified-kept p (inr w) = inr (Waker-stays w)

    Notified-quiet : Notified n next
    Notified-quiet = record {
      tells = λ j lj p h. elim (Bool-cases (i == j)) [
        | inr e ↦
            let old : (get_or b.threads j outside).place ≡ spinning p asleep =
              rw (look j, e) at h in
            Notified-kept p (note.tells j lj p old)
        | inl e ↦
            let own : t'.place ≡ spinning p asleep = rw (look j, e) at h in
            elim (sleeps p own) [
              | inl same ↦ inl same
              | inr was ↦ Notified-kept p (note.tells i lt p was)
            ]
      ];
    }

  Notified-flip :
      (phase : Bool) (t' : Thread)
      → t'.place ≡ waking
      → Notified n (record b { phase = phase; threads = set b.threads i t' })
  Notified-flip phase t' e = record {
    tells = λ j lj p h.
        let here : get_or (set b.threads i t') i outside ≡ t' =
          ground (arith, get_or-set b.threads i i t' outside (omega (arith, team))) in
        inr (i, lt, ap (λ t. t.place) here ∙ e);
  }

  Notified-wake :
      (t' : Thread)
      → t'.place ≡ idle
      → Notified n (record b { threads = set (map wake b.threads) i t' })
  Notified-wake t' e = record {
    tells = λ j lj p h.
        let look_j =
          get_or-set (map wake b.threads) i j t' outside
            (omega (arith, team, length-map wake b.threads)) in
        let t = get_or b.threads j outside in
        elim (Bool-cases (i == j)) [
          | inl q ↦
              let own : t'.place ≡ spinning p asleep = rw (look_j, q) at h in
              cc (ap is_asleep (sym e ∙ own))
          | inr q ↦
              let at : (get_or (map wake b.threads) j outside).place ≡ spinning p asleep =
                rw (look_j, q) at h in
              let woke = ap (λ u. u.place) (sym (get_or-wake b.threads j)) ∙ at in
              cc (sym (woken-awake t t.place refl) ∙ ap is_asleep woke)
        ];
  }

  falls : (p : Bool) (q : Place) → is_asleep q ≡ false → q ≡ spinning p asleep → ⊥
  falls p q awake e = cc (sym awake ∙ ap is_asleep e)

  looks : (p : Bool) (k : ℕ) → is_asleep (spinning p (after_look k)) ≡ false
  looks p zero = refl
  looks p (suc k) = refl

  by_place : (p : Place) → mine.place ≡ p → Notified n (step b i)
  unfolding step act
  by_place idle e =
      let t' : Thread = record mine { place = loaded b.phase } in
      rw e (Notified-quiet t' b.count (ap is_waking e) (λ p h. absurd (falls p _ refl h)))
  by_place (loaded p) e = elim (Bool-cases (b.count + 1 == b.total)) [
    | inl q ↦
        let t' : Thread = record mine { place = last_arriver p } in
        rw (e, q)
          (Notified-quiet t' (b.count + 1) (ap is_waking e) (λ p h. absurd (falls p _ refl h)))
    | inr q ↦
        let t' : Thread = record mine { place = spinning p (looking b.spin) } in
        rw (e, q)
          (Notified-quiet t' (b.count + 1) (ap is_waking e) (λ p h. absurd (falls p _ refl h)))
  ]
  by_place (last_arriver p) e =
      let t' : Thread = record mine { place = counter_reset p } in
      rw e (Notified-quiet t' 0 (ap is_waking e) (λ p h. absurd (falls p _ refl h)))
  by_place (counter_reset p) e = rw e (Notified-flip (not p) _ refl)
  by_place waking e = rw e (Notified-wake _ refl)
  by_place (spinning p (looking k)) e = elim (Bool-cases (same_phase b.phase p)) [
    | inl q ↦
        let t' : Thread = record mine { place = spinning p (after_look k) } in
        rw (e, q)
          (Notified-quiet t' b.count (ap is_waking e) (λ p' h. absurd (falls p' _ (looks p k) h)))
    | inr q ↦
        let t' : Thread = record { place = idle; rounds = mine.rounds + 1 } in
        rw (e, q) (Notified-quiet t' b.count (ap is_waking e) (λ p' h. absurd (falls p' _ refl h)))
  ]
  by_place (spinning p calling) e = elim (Bool-cases (same_phase b.phase p)) [
    | inl q ↦
        let t' : Thread = record mine { place = spinning p asleep } in
        rw (e, q)
          (Notified-quiet t' b.count (ap is_waking e)
            (λ p' h. inl (ap (λ x. same_phase b.phase (phase_of x)) (sym h) ∙ q)))
    | inr q ↦
        let t' : Thread = record mine { place = spinning p (looking 0) } in
        rw (e, q) (Notified-quiet t' b.count (ap is_waking e) (λ p' h. absurd (falls p' _ refl h)))
  ]
  by_place (spinning p asleep) e =
      rw e (Notified-quiet mine b.count (ap is_waking e) (λ p h. inr h))

pub Notified-run :
    (n : ℕ) (schedule : List ℕ) (b : Barrier)
    → AllLt n schedule
    → Inv n b
    → Notified n b
    → Notified n (run b schedule)
unfolding run
Notified-run n [] b low inv note = note
Notified-run n (i ∷ schedule) b low inv note =
    Notified-run n schedule (step b i) low.1 (Inv-step n b i low.0 inv)
      (by_place n b inv.team note i low.0 (get_or b.threads i outside).place refl)

pub Notified-init : (n spin : ℕ) → Notified n (init n spin)
unfolding init
Notified-init n spin = record {
  tells = λ j lj p h.
      let awake = ap (λ t. is_asleep t.place) (sym (get_or-replicate n j outside)) in
      cc (awake ∙ ap is_asleep h);
}
