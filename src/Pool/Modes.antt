-- ===== src/Pool/Modes.antt =====
-- The modes of a round of the barrier of src/bfs_pthread.cc, and what a thread's place allows in them.
use gapbs_bfs_experiment.Base.{
  ℕ, zero, suc, ◌≤◌, ◌<◌, ◌≡◌, refl, arith, Bool, true, false, not, if◌then◌else◌, ◌==◌, ◌⊎◌, inl,
  inr,
}
use gapbs_bfs_experiment.Pool.Barrier.{
  Place, idle, loaded, last_arriver, counter_reset, waking, spinning, Wait, Thread, same_phase,
  waiting,
}

abbrev pub parity : ℕ → Bool
parity zero = false
parity (suc r) = not (parity r)

-- A thread that has arrived in round `r` and not left it.
abbrev pub here : ℕ → Thread → ℕ
here r t = if t.rounds == r then waiting t.place else 0

abbrev pub closing : Place → ℕ
closing (last_arriver p) = 1
closing (counter_reset p) = 0
closing idle = 0
closing (loaded p) = 0
closing waking = 0
closing (spinning p w) = 0

abbrev pub reset_done : Place → ℕ
reset_done (counter_reset p) = 1
reset_done (last_arriver p) = 0
reset_done idle = 0
reset_done (loaded p) = 0
reset_done waking = 0
reset_done (spinning p w) = 0

-- What a thread's place allows in round `r`.
abbrev pub Fits : ℕ → ℕ → Place → Type 0
Fits r rounds idle = rounds ≡ r
Fits r rounds (loaded p) = (rounds ≡ r) × (p ≡ parity r)
Fits r rounds (last_arriver p) = (rounds ≡ r) × (p ≡ parity r)
Fits r rounds (counter_reset p) = (rounds ≡ r) × (p ≡ parity r)
Fits r rounds waking = rounds ≡ r
Fits r rounds (spinning p w) = (p ≡ parity rounds) × ((rounds ≡ r) ⊎ (suc rounds ≡ r))

-- The three modes of a round: arrivals still open, all in with the counter full, and the counter reset.
-- `a` threads are in, `c` of them are about to reset the counter, and `d` have reset it.
abbrev pub Mode : ℕ → ℕ → ℕ → ℕ → ℕ → Type 0
Mode n a c d count =
    ((c ≡ 0) × (d ≡ 0) × (a < n) × (count ≡ a))
    ⊎ (((c ≡ 1) × (d ≡ 0) × (a ≡ n) × (count ≡ n)) ⊎ ((c ≡ 0) × (d ≡ 1) × (a ≡ n) × (count ≡ 0)))

abbrev pub is_closing : Thread → ℕ
is_closing t = closing t.place

abbrev pub has_reset : Thread → ℕ
has_reset t = reset_done t.place

pub here-le : (r : ℕ) (t : Thread) → here r t ≤ 1
here-le r t = ground (arith, waiting-le t.place)
  where
    waiting-le : (p : Place) → waiting p ≤ 1
    waiting-le idle = omega arith
    waiting-le (loaded p) = omega arith
    waiting-le (last_arriver p) = omega arith
    waiting-le (counter_reset p) = omega arith
    waiting-le waking = omega arith
    waiting-le (spinning p w) = omega arith

-- A thread that has arrived and is not the last arriver spins.
pub spinner :
    (p : Place)
    → waiting p ≡ 1
    → closing p ≡ 0
    → reset_done p ≡ 0
    → (q : Bool) × ((v : Wait) × (p ≡ spinning q v))
spinner idle w c d = absurd (omega arith)
spinner (loaded q) w c d = absurd (omega arith)
spinner (last_arriver q) w c d = absurd (omega arith)
spinner (counter_reset q) w c d = absurd (omega arith)
spinner waking w c d = absurd (omega arith)
spinner (spinning q v) w c d = (q, (v, refl))

-- Two phases that differ are not equal.
pub flipped : (a b : Bool) → same_phase a b ≡ false → a ≡ b → ⊥
flipped true true h e = cc
flipped true false h e = cc
flipped false true h e = cc
flipped false false h e = cc

-- The changes of mode.
pub Mode-same :
    (n a c d k a' c' d' : ℕ) → a' ≡ a → c' ≡ c → d' ≡ d → Mode n a c d k → Mode n a' c' d' k
Mode-same n a c d k a' c' d' p q s m = rw (p, q, s) m

pub Mode-open : (n a c d k : ℕ) → a < n → Mode n a c d k → (c ≡ 0) × ((d ≡ 0) × (k ≡ a))
Mode-open n a c d k h (inl m) = (m.0, (m.1, m.3))
Mode-open n a c d k h (inr (inl m)) = absurd (omega (arith, m.2))
Mode-open n a c d k h (inr (inr m)) = absurd (omega (arith, m.2))

pub Mode-full : (n a c d k : ℕ) → 1 ≤ c → Mode n a c d k → (c ≡ 1) × ((d ≡ 0) × (a ≡ n))
Mode-full n a c d k h (inl m) = absurd (omega (arith, m.0))
Mode-full n a c d k h (inr (inl m)) = (m.0, (m.1, m.2))
Mode-full n a c d k h (inr (inr m)) = absurd (omega (arith, m.0))

pub Mode-reset :
    (n a c d k : ℕ) → 1 ≤ d → Mode n a c d k → (c ≡ 0) × ((d ≡ 1) × ((a ≡ n) × (k ≡ 0)))
Mode-reset n a c d k h (inl m) = absurd (omega (arith, m.1))
Mode-reset n a c d k h (inr (inl m)) = absurd (omega (arith, m.1))
Mode-reset n a c d k h (inr (inr m)) = (m.0, (m.1, (m.2, m.3)))
