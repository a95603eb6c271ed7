-- ===== src/Pool/Steps.antt =====
-- What every action at the barrier (SpinBarrier of src/bfs_pthread.cc) keeps, FutexWakeAll included.
use gapbs_bfs_experiment.Base.{
  ℕ, zero, suc, map, length-map, ◌<◌, ◌≡◌, refl, ap, ◌∙◌, sym, subst, arith, Bool, List, [], ◌∷◌,
  get_or, set, replicate, inl, AllLt, length-replicate, get_or-replicate,
}
use gapbs_bfs_experiment.Pool.Barrier.{
  Place, idle, loaded, last_arriver, counter_reset, waking, spinning, Wait, looking, calling,
  asleep, woken, wake, Thread, Barrier, outside, init, act, step, run, waiting,
}
use gapbs_bfs_experiment.Pool.Tally.{tally, tally-zero}
use gapbs_bfs_experiment.Pool.Modes.{
  here, closing, reset_done, Fits, is_closing, has_reset, Mode-same,
}
use gapbs_bfs_experiment.Pool.Moves.{Inv, Inv-idle, Inv-loaded, Inv-last, Inv-spinning, Inv-to_idle}
use gapbs_bfs_experiment.Pool.Flip.{Inv-reset}

-- FutexWakeAll changes nothing that the invariant is about.
rounds-woken : (t : Thread) (p : Place) → (woken t p).rounds ≡ t.rounds
rounds-woken t (spinning p asleep) = refl
rounds-woken t (spinning p (looking k)) = refl
rounds-woken t (spinning p calling) = refl
rounds-woken t idle = refl
rounds-woken t (loaded p) = refl
rounds-woken t (last_arriver p) = refl
rounds-woken t (counter_reset p) = refl
rounds-woken t waking = refl

-- Anything said of places that does not tell the ways to wait apart.
place-woken {ℓ} :
    {A : Type ℓ} (f : Place → A)
    → ((p : Bool) (w w' : Wait) → f (spinning p w) ≡ f (spinning p w'))
    → (t : Thread) (p : Place) → t.place ≡ p
    → f (woken t p).place ≡ f t.place
place-woken f same t (spinning p asleep) e = same p (looking 0) asleep ∙ ap f (sym e)
place-woken f same t (spinning p (looking k)) e = refl
place-woken f same t (spinning p calling) e = refl
place-woken f same t idle e = refl
place-woken f same t (loaded p) e = refl
place-woken f same t (last_arriver p) e = refl
place-woken f same t (counter_reset p) e = refl
place-woken f same t waking e = refl

tally-wake :
    (f : Thread → ℕ)
    → ((t : Thread) → f (wake t) ≡ f t)
    → (ts : List Thread) → tally f (map wake ts) ≡ tally f ts
tally-wake f same [] = refl
tally-wake f same (t ∷ ts) = omega (arith, same t, tally-wake f same ts)

pub get_or-wake :
    (ts : List Thread) (j : ℕ) → get_or (map wake ts) j outside ≡ wake (get_or ts j outside)
get_or-wake [] j = refl
get_or-wake (t ∷ ts) zero = refl
get_or-wake (t ∷ ts) (suc j) = get_or-wake ts j

module _ (n : ℕ) (b : Barrier) (inv : Inv n b) where
  Inv-wake : Inv n (record b { threads = map wake b.threads })
  Inv-wake =
      let a =
        tally-wake (here inv.round)
          (λ t.
            rw (rounds-woken t t.place, place-woken waiting (λ p w w'. refl) t t.place refl) refl)
          b.threads in
      let c =
        tally-wake is_closing (λ t. place-woken closing (λ p w w'. refl) t t.place refl)
          b.threads in
      let d =
        tally-wake has_reset (λ t. place-woken reset_done (λ p w w'. refl) t t.place refl)
          b.threads in
      record {
        round = inv.round;
        team = length-map wake b.threads ∙ inv.team;
        totals = inv.totals;
        phase_is = inv.phase_is;
        fits = λ j lj.
            let t = get_or b.threads j outside in
            let kept = place-woken (Fits inv.round t.rounds) (λ p w w'. refl) t t.place refl in
            rw (get_or-wake b.threads j, rounds-woken t t.place)
              (subst (λ X. X) (sym kept) (inv.fits j lj));
        mode = Mode-same n _ _ _ b.count _ _ _ a c d inv.mode;
      }

  Inv-waking : (i : ℕ) → i < n → (get_or b.threads i outside).place ≡ waking → Inv n (step b i)
  unfolding step act
  Inv-waking i lt e =
      let b' : Barrier = record b { threads = map wake b.threads } in
      let t = get_or b.threads i outside in
      let same : get_or b'.threads i outside ≡ t = get_or-wake b.threads i ∙ ap (woken t) e in
      let at = ap (λ u. u.place) same ∙ e in
      rw e (
        subst (λ u. Inv n (record b' { threads = set b'.threads i (record u { place = idle }) }))
          same (Inv-to_idle n b' Inv-wake i lt at))

module _ (n : ℕ) (b : Barrier) (inv : Inv n b) (i : ℕ) (lt : i < n) where
  by_place : (p : Place) → (get_or b.threads i outside).place ≡ p → Inv n (step b i)
  by_place idle e = Inv-idle n b inv i lt e
  by_place (loaded p) e = Inv-loaded n b inv i lt p e
  by_place (last_arriver p) e = Inv-last n b inv i lt p e
  by_place (counter_reset p) e = Inv-reset n b inv i lt p e
  by_place waking e = Inv-waking n b inv i lt e
  by_place (spinning p w) e = Inv-spinning n b inv i lt p w e

pub Inv-step : (n : ℕ) (b : Barrier) (i : ℕ) → i < n → Inv n b → Inv n (step b i)
Inv-step n b i lt inv = by_place n b inv i lt (get_or b.threads i outside).place refl

pub Inv-run :
    (n : ℕ) (schedule : List ℕ) (b : Barrier) → AllLt n schedule → Inv n b → Inv n (run b schedule)
unfolding run
Inv-run n [] b low inv = inv
Inv-run n (i ∷ schedule) b low inv = Inv-run n schedule (step b i) low.1 (Inv-step n b i low.0 inv)

pub Inv-init : (n spin : ℕ) → 0 < n → Inv n (init n spin)
unfolding init
Inv-init n spin h = record {
  round = 0;
  team = length-replicate n outside;
  totals = refl;
  phase_is = refl;
  fits = λ i lt. rw (get_or-replicate n i outside) refl;
  mode = inl (
    none_of is_closing refl,
    none_of has_reset refl,
    omega (arith, none_of (here 0) (ground arith)),
    sym (none_of (here 0) (ground arith)),
  );
}
  where
    none_of : (f : Thread → ℕ) → f outside ≡ 0 → tally f (replicate n outside) ≡ 0
    none_of f z =
        tally-zero f (replicate n outside) (λ i lt. ap f (get_or-replicate n i outside) ∙ z)
