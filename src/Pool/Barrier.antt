-- ===== src/Pool/Barrier.antt =====
-- The class SpinBarrier of src/bfs_pthread.cc, one atomic action at a time.
use gapbs_bfs_experiment.Base.{
  ℕ, zero, suc, map, ◌+◌, Bool, false, not, ◌&&◌, ◌||◌, List, foldl, get_or, set, replicate,
  if◌then◌else◌, ◌==◌,
}

-- Where a thread is in the loop that waits for the phase to flip: about to read the phase, with the
-- spins that it has left, about to call FutexWait, or asleep in it.
pub data Wait : Type 0 where
  looking : ℕ → Wait
  calling : Wait
  asleep : Wait

-- Where a thread is in wait(): outside, with the phase it has read, as the last arriver before and after
-- its store to count_ and then before FutexWakeAll, and in the loop.
pub data Place : Type 0 where
  idle : Place
  loaded : Bool → Place
  last_arriver : Bool → Place
  counter_reset : Bool → Place
  waking : Place
  spinning : Bool → Wait → Place

-- `rounds` is the number of rounds that are over for it: it has flipped the phase, or seen it flipped.
pub record Thread : Type 0 where
  pub place : Place
  pub rounds : ℕ

pub record Barrier : Type 0 where
  pub total : ℕ
  pub spin : ℕ
  pub count : ℕ
  pub phase : Bool
  pub threads : List Thread

abbrev pub outside : Thread
outside = record { place = idle; rounds = 0 }

unfoldable pub init : ℕ → ℕ → Barrier
init participants spin = record {
  total = participants;
  spin = spin;
  count = 0;
  phase = false;
  threads = replicate participants outside;
}

abbrev pub same_phase : Bool → Bool → Bool
same_phase a b = a && b || not a && not b

-- After the phase was read and is the old one.
abbrev pub after_look : ℕ → Wait
after_look zero = calling
after_look (suc spins) = looking spins

abbrev pub woken : Thread → Place → Thread
woken t (spinning my_phase asleep) = record t { place = spinning my_phase (looking 0) }
woken t idle = t
woken t (loaded my_phase) = t
woken t (last_arriver my_phase) = t
woken t (counter_reset my_phase) = t
woken t waking = t
woken t (spinning my_phase (looking spins)) = t
woken t (spinning my_phase calling) = t

-- What FutexWakeAll does to a thread.
abbrev pub wake : Thread → Thread
wake t = woken t t.place

-- The next action of a thread in this place: what it does to the barrier, and where the thread is then.
-- FutexWait checks the phase and puts the thread to sleep in one action, which only FutexWakeAll ends.
unfoldable pub act : Barrier → Thread → Place → Barrier × Thread
act b t idle = (b, record t { place = loaded b.phase })
act b t (loaded my_phase) =
    let arrived = b.count + 1 in
    (
      record b { count = arrived },
      record t {
        place =
            if arrived == b.total
            then last_arriver my_phase
            else spinning my_phase (looking b.spin);
      },
    )
act b t (last_arriver my_phase) =
    (record b { count = 0 }, record t { place = counter_reset my_phase })
act b t (counter_reset my_phase) =
    (record b { phase = not my_phase }, record { place = waking; rounds = t.rounds + 1 })
act b t waking = (record b { threads = map wake b.threads }, record t { place = idle })
act b t (spinning my_phase (looking spins)) = (
  b,
  if same_phase b.phase my_phase
      then record t { place = spinning my_phase (after_look spins) }
      else record { place = idle; rounds = t.rounds + 1 },
)
act b t (spinning my_phase calling) = (
  b,
  record t {
    place = spinning my_phase (if same_phase b.phase my_phase then asleep else looking 0);
  },
)
act b t (spinning my_phase asleep) = (b, t)

-- Thread `i` takes its next action.
unfoldable pub step : Barrier → ℕ → Barrier
unfolding act
step b i =
    let t = get_or b.threads i outside in
    let (b', t') = act b t t.place in record b' { threads = set b'.threads i t' }

-- An interleaving is the list of the threads that act, in order.
unfoldable pub run : Barrier → List ℕ → Barrier
unfolding step
run b schedule = foldl step b schedule

-- How often a thread has arrived: the rounds it has left, and the one it waits in.
abbrev pub waiting : Place → ℕ
waiting idle = 0
waiting (loaded p) = 0
waiting (last_arriver p) = 1
waiting (counter_reset p) = 1
waiting waking = 0
waiting (spinning p w) = 1

unfoldable pub arrivals : Thread → ℕ
arrivals t = t.rounds + waiting t.place
