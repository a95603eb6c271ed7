-- ===== src/SlidingQueue.antt =====
-- The classes SlidingQueue and QueueBuffer of src/sliding_queue.h.
pub mod Window
pub mod Buffer
use gapbs_bfs_experiment.Base.{
  ℕ, zero, suc, ◌+◌, ◌-◌, Bool, List, [], ◌∷◌, ◌++◌, length, take, drop, set, replicate, ◌==◌,
  if◌then◌else◌,
}

-- `shared` is the whole array. The window that readers see is shared[out_start .. out_end), and
-- shared[out_end .. shared_in) is what was appended since the last slide.
pub record SlidingQueue {ℓ} (A : Type ℓ) : Type ℓ where
  pub shared : List A
  pub shared_in : ℕ
  pub out_start : ℕ
  pub out_end : ℕ

pub record QueueBuffer {ℓ} (A : Type ℓ) : Type ℓ where
  pub count : ℕ
  pub local_queue : List A

abbrev pub default_size : ℕ
default_size = 16384

-- xs[i .. j)
abbrev pub slice {ℓ} : {A : Type ℓ} → List A → ℕ → ℕ → List A
slice xs i j = take (j - i) (drop i xs)

-- std::copy: writes `ys` over the array from index `i`.
abbrev pub copy_to {ℓ} : {A : Type ℓ} → List A → ℕ → List A → List A
copy_to xs i [] = xs
copy_to xs i (y ∷ ys) = copy_to (set xs i y) (suc i) ys

module _ {ℓ} {A : Type ℓ} where
  unfoldable pub reset : SlidingQueue A → SlidingQueue A
  reset q = record q { out_start = 0; out_end = 0; shared_in = 0 }

  -- `fresh` stands for what the allocated array holds.
  unfoldable pub create : A → ℕ → SlidingQueue A
  unfolding reset
  create fresh shared_size =
      reset
        (record { shared = replicate shared_size fresh; shared_in = 0; out_start = 0; out_end = 0 })

  unfoldable pub push_back : SlidingQueue A → A → SlidingQueue A
  push_back q to_add = record q {
    shared = set q.shared q.shared_in to_add;
    shared_in = suc q.shared_in;
  }

  unfoldable pub empty : SlidingQueue A → Bool
  empty q = q.out_start == q.out_end

  unfoldable pub slide_window : SlidingQueue A → SlidingQueue A
  slide_window q = record q { out_start = q.out_end; out_end = q.shared_in }

  unfoldable pub size : SlidingQueue A → ℕ
  size q = q.out_end - q.out_start

  -- What an iteration from begin() to end() reads.
  unfoldable pub window : SlidingQueue A → List A
  window q = slice q.shared q.out_start q.out_end

  unfoldable pub create_buffer : A → ℕ → QueueBuffer A
  create_buffer fresh given_size = record { count = 0; local_queue = replicate given_size fresh }

  -- fetch_and_add reserves the slots, and the copy fills them.
  unfoldable pub flush : SlidingQueue A → QueueBuffer A → SlidingQueue A × QueueBuffer A
  flush q b =
      let copy_start = q.shared_in in
      (
        record q {
          shared = copy_to q.shared copy_start (take b.count b.local_queue);
          shared_in = copy_start + b.count;
        },
        record b { count = 0 },
      )

  append_local : SlidingQueue A × QueueBuffer A → A → SlidingQueue A × QueueBuffer A
  append_local (q, b) to_add =
      (q, record b { local_queue = set b.local_queue b.count to_add; count = suc b.count })

  unfoldable pub buffer_push : SlidingQueue A → QueueBuffer A → A → SlidingQueue A × QueueBuffer A
  unfolding flush append_local
  buffer_push q b to_add =
      append_local (if b.count == length b.local_queue then flush q b else (q, b)) to_add
