-- ===== src/SlidingQueue/Buffer.antt =====
-- The buffered appends of QueueBuffer (src/sliding_queue.h) against plain appends.
use gapbs_bfs_experiment.Base.{
  ℕ, suc, ◌+◌, ◌≤◌, ◌<◌, ◌≡◌, refl, sym, ap, subst, ◌∙◌, arith, List, [], ◌∷◌, ◌++◌, append_assoc,
  append-nil, length, take-set, take, set, length-append, length-take, length-set, length-replicate,
  inl, inr, Bool-cases, ◌==◌,
}
use gapbs_bfs_experiment.SlidingQueue.{
  SlidingQueue, QueueBuffer, copy_to, create_buffer, flush, buffer_push, append_local,
}
use gapbs_bfs_experiment.SlidingQueue.Window.{View, copy_to-View}

module _ {ℓ} {A : Type ℓ} where
  -- The queue and one thread's buffer: `added` is what was appended through both since the slide.
  pub record Holds (s : SlidingQueue A × QueueBuffer A) (seen shown added : List A) : Type ℓ where
    pub flushed : List A
    pub view : View s.0 seen shown flushed
    pub all : added ≡ flushed ++ take s.1.count s.1.local_queue
    pub fits : s.1.count ≤ length s.1.local_queue
    pub some_room : 0 < length s.1.local_queue

  pub create_buffer-Holds :
      {q : SlidingQueue A} {seen shown added : List A} (fresh : A) (n : ℕ)
      → 0 < n
      → View q seen shown added
      → Holds (q, create_buffer fresh n) seen shown added
  unfolding create_buffer
  create_buffer-Holds {added} fresh n h v = record {
    flushed = added;
    view = v;
    all = simp append-nil;
    fits = omega arith;
    some_room = omega (arith, length-replicate n fresh);
  }

  -- A new buffer holds nothing, so all that was appended is in the queue.
  pub create_buffer-View :
      {q : SlidingQueue A} {seen shown added : List A} (fresh : A) (n : ℕ)
      → Holds (q, create_buffer fresh n) seen shown added
      → View q seen shown added
  unfolding create_buffer
  create_buffer-View {q} {seen} {shown} fresh n h =
      let same = h.all ∙ append-nil h.flushed in subst (View q seen shown) (sym same) h.view

  module _ {q : SlidingQueue A} {b : QueueBuffer A} {seen shown added : List A} where
    -- A flush leaves in the queue all that was appended, if the array has the slots.
    pub flush-View :
        Holds (q, b) seen shown added
        → length seen + length shown + length added ≤ length q.shared
        → View (flush q b).0 seen shown added
    unfolding flush
    flush-View h room =
        let len = length-take b.count b.local_queue h.fits in
        rw h.all (
          copy_to-View (take b.count b.local_queue) b.count h.view len
            (omega (arith, ap length h.all, length-append h.flushed (take b.count b.local_queue))))

    flush-Holds :
        Holds (q, b) seen shown added
        → length seen + length shown + length added ≤ length q.shared
        → Holds (flush q b) seen shown added
    unfolding flush
    flush-Holds h room = record {
      flushed = added;
      view = unfold flush in flush-View h room;
      all = simp append-nil;
      fits = omega arith;
      some_room = h.some_room;
    }

    append_local-Holds :
        (x : A)
        → Holds (q, b) seen shown added
        → b.count < length b.local_queue
        → Holds (append_local (q, b) x) seen shown (added ++ x ∷ [])
    unfolding append_local
    append_local-Holds x h room = record {
      flushed = h.flushed;
      view = h.view;
      all =
          ap (λ ws. ws ++ x ∷ []) h.all
          ∙ append_assoc h.flushed (take b.count b.local_queue) (x ∷ [])
          ∙ ap (◌++◌ h.flushed) (sym (take-set b.local_queue b.count x room));
      fits = omega (arith, length-set b.local_queue b.count x);
      some_room = omega (arith, length-set b.local_queue b.count x);
    }

  length-copy_to : (xs : List A) (i : ℕ) (ys : List A) → length (copy_to xs i ys) ≡ length xs
  length-copy_to xs i [] = refl
  length-copy_to xs i (y ∷ ys) = length-copy_to (set xs i y) (suc i) ys ∙ length-set xs i y

  -- No operation through the buffer changes the size of the shared array.
  pub length-flush :
      (q : SlidingQueue A) (b : QueueBuffer A) → length (flush q b).0.shared ≡ length q.shared
  unfolding flush
  length-flush q b = length-copy_to q.shared q.shared_in (take b.count b.local_queue)

  pub length-buffer_push :
      (q : SlidingQueue A) (b : QueueBuffer A) (x : A)
      → length (buffer_push q b x).0.shared ≡ length q.shared
  unfolding buffer_push append_local
  length-buffer_push q b x = elim (Bool-cases (b.count == length b.local_queue)) [
    | inl e ↦ rw e (length-flush q b)
    | inr e ↦ rw e
  ]

  -- A buffered append is an append: a full buffer is flushed first.
  pub buffer_push-Holds :
      {q : SlidingQueue A} {b : QueueBuffer A} {seen shown added : List A} (x : A)
      → Holds (q, b) seen shown added
      → length seen + length shown + length added < length q.shared
      → Holds (buffer_push q b x) seen shown (added ++ x ∷ [])
  unfolding buffer_push
  buffer_push-Holds {q} {b} x h room = elim (Bool-cases (b.count == length b.local_queue)) [
    | inl e ↦
        rw e (append_local-Holds x (flush-Holds h (omega arith)) (unfold flush in h.some_room))
    | inr e ↦ rw e (append_local-Holds x h (ground (arith, h.fits)))
  ]

  unfoldable pub buffer_push_all :
      SlidingQueue A × QueueBuffer A → List A → SlidingQueue A × QueueBuffer A
  buffer_push_all s [] = s
  buffer_push_all s (x ∷ xs) = buffer_push_all (buffer_push s.0 s.1 x) xs

  buffer_push_all-Holds :
      (s : SlidingQueue A × QueueBuffer A) (xs seen shown added : List A)
      → Holds s seen shown added
      → length seen + length shown + length added + length xs ≤ length s.0.shared
      → Holds (buffer_push_all s xs) seen shown (added ++ xs)
        × (length (buffer_push_all s xs).0.shared ≡ length s.0.shared)
  unfolding buffer_push_all
  buffer_push_all-Holds s [] seen shown added h room = (rw (append-nil added) h, refl)
  buffer_push_all-Holds s (x ∷ xs) seen shown added h room =
      let same = length-buffer_push s.0 s.1 x in
      let (ih, len) =
        buffer_push_all-Holds (buffer_push s.0 s.1 x) xs seen shown (added ++ x ∷ [])
          (buffer_push-Holds x h (omega arith)) (omega (arith, length-append added (x ∷ []))) in
      (
        subst (Holds (buffer_push_all (buffer_push s.0 s.1 x) xs) seen shown)
            (append_assoc added (x ∷ []) xs) ih,
        len ∙ same,
      )

  -- Pushing `xs` through a new buffer of any positive size and flushing it appends `xs`, in order, to
  -- what was appended; the window stays as it was, if the array has a slot for every item.
  pub flush-buffer_push_all :
      {q : SlidingQueue A} {seen shown added : List A} (fresh : A) (n : ℕ) (xs : List A)
      → 0 < n
      → View q seen shown added
      → length seen + length shown + length added + length xs ≤ length q.shared
      → let s = buffer_push_all (q, create_buffer fresh n) xs in
        View (flush s.0 s.1).0 seen shown (added ++ xs)
  flush-buffer_push_all {q} {seen} {shown} {added} fresh n xs pos v room =
      let (h, same) =
        buffer_push_all-Holds (q, create_buffer fresh n) xs seen shown added
          (create_buffer-Holds fresh n pos v) room in
      flush-View h (omega (arith, same, length-append added xs))

  pub length-buffer_push_all :
      (s : SlidingQueue A × QueueBuffer A) (xs : List A)
      → length (buffer_push_all s xs).0.shared ≡ length s.0.shared
  unfolding buffer_push_all
  length-buffer_push_all s [] = refl
  length-buffer_push_all s (x ∷ xs) =
      length-buffer_push_all (buffer_push s.0 s.1 x) xs ∙ length-buffer_push s.0 s.1 x
