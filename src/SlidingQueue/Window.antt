-- ===== src/SlidingQueue/Window.antt =====
-- What the operations of SlidingQueue (src/sliding_queue.h) do to the items in the array.
use gapbs_bfs_experiment.Base.{
  ℕ, suc, ◌+◌, ◌-◌, ◌≤◌, ◌<◌, ◌≡◌, refl, sym, ap, ◌∙◌, arith, List, [], ◌∷◌, ◌++◌, append_assoc,
  append-nil, length, drop, set, replicate, length-append, take-length, drop-length, set-length,
  Nonempty-cases, ◌==◌,
}
use gapbs_bfs_experiment.SlidingQueue.{
  SlidingQueue, slice, copy_to, create, reset, push_back, slide_window, empty, size, window,
}

module _ {ℓ} {A : Type ℓ} where
  -- The array in four parts: what was read, the window, what was appended, and the free slots.
  pub record View (q : SlidingQueue A) (seen shown added : List A) : Type ℓ where
    pub free : List A
    pub parts : q.shared ≡ seen ++ shown ++ added ++ free
    pub start : q.out_start ≡ length seen
    pub stop : q.out_end ≡ length seen + length shown
    pub next : q.shared_in ≡ length seen + length shown + length added

  pub slice-middle :
      (xs ys zs : List A) (i j : ℕ)
      → i ≡ length xs
      → j ≡ length xs + length ys
      → slice (xs ++ ys ++ zs) i j ≡ ys
  slice-middle xs ys zs i j p q =
      let e : j - i ≡ length ys = omega arith in
      rw (append_assoc xs ys zs, e, p, drop-length xs (ys ++ zs)) (take-length ys zs)

  pub window-View :
      {q : SlidingQueue A} {seen shown added : List A} → View q seen shown added → window q ≡ shown
  unfolding window
  window-View {q} {seen} {shown} {added} v =
      rw (v.parts, append_assoc (seen ++ shown) added v.free)
        (slice-middle seen shown (added ++ v.free) q.out_start q.out_end v.start v.stop)

  length-three : (xs ys zs : List A) → length (xs ++ ys ++ zs) ≡ length xs + length ys + length zs
  length-three xs ys zs = omega (arith, length-append (xs ++ ys) zs, length-append xs ys)

  -- All the slots of the array are accounted for.
  pub slots-View :
      {q : SlidingQueue A} {seen shown added : List A} (v : View q seen shown added)
      → length q.shared ≡ length seen + length shown + length added + length v.free
  slots-View {q} {seen} {shown} {added} v = omega (
    arith,
    ap length v.parts,
    length-three seen shown added,
    length-append (seen ++ shown ++ added) v.free,
  )

  -- A write at the end of a prefix.
  set_at :
      (xs : List A) (y z : A) (ys : List A) (i : ℕ)
      → i ≡ length xs
      → set (xs ++ y ∷ ys) i z ≡ xs ++ z ∷ ys
  set_at xs y z ys i e = rw e (set-length xs y z ys)

  pub push_back-View :
      {q : SlidingQueue A} {seen shown added : List A} (x : A)
      → View q seen shown added
      → length seen + length shown + length added < length q.shared
      → View (push_back q x) seen shown (added ++ x ∷ [])
  unfolding push_back
  push_back-View {q} {seen} {shown} {added} x v room =
      let (y, rest, e) = Nonempty-cases v.free (omega (arith, slots-View v)) in
      let whole : q.shared ≡ (seen ++ shown ++ added) ++ y ∷ rest =
        v.parts ∙ ap (◌++◌ (seen ++ shown ++ added)) e in
      let done : set q.shared q.shared_in x ≡ (seen ++ shown ++ added) ++ x ∷ rest = rw whole (
        set_at (seen ++ shown ++ added) y x rest q.shared_in
          (omega (arith, v.next, length-three seen shown added))) in
      record {
        free = rest;
        parts = done ∙ simp append_assoc;
        start = v.start;
        stop = v.stop;
        next = omega (arith, v.next, length-append added (x ∷ []));
      }

  pub slide_window-View :
      {q : SlidingQueue A} {seen shown added : List A}
      → View q seen shown added
      → View (slide_window q) (seen ++ shown) added []
  unfolding slide_window
  slide_window-View {q} {seen} {shown} {added} v = record {
    free = v.free;
    parts = v.parts ∙ simp append_assoc;
    start = omega (arith, v.stop, length-append seen shown);
    stop = omega (arith, v.next, length-append seen shown);
    next = omega (arith, v.next, length-append seen shown);
  }

  pub create-View : (fresh : A) (n : ℕ) → View (create fresh n) [] [] []
  unfolding create reset
  create-View fresh n = record {
    free = replicate n fresh;
    parts = refl;
    start = refl;
    stop = omega arith;
    next = omega arith;
  }

  -- The loop test `empty()` says whether the window has no item.
  pub empty-View :
      {q : SlidingQueue A} {seen shown added : List A}
      → View q seen shown added
      → empty q ≡ (length shown == 0)
  unfolding empty
  empty-View {q} {seen} {shown} v = ground (arith, v.start, v.stop)

  pub size-View :
      {q : SlidingQueue A} {seen shown added : List A}
      → View q seen shown added
      → size q ≡ length shown
  unfolding size
  size-View {q} {seen} {shown} v = omega (arith, v.start, v.stop)

  copy_to-prefix :
      (ys xs free : List A) (i : ℕ)
      → i ≡ length xs
      → length ys ≤ length free
      → copy_to (xs ++ free) i ys ≡ xs ++ ys ++ drop (length ys) free
  copy_to-prefix [] xs free i e h = simp append-nil
  copy_to-prefix (y ∷ ys) xs [] i e h = absurd (omega arith)
  copy_to-prefix (y ∷ ys) xs (z ∷ free) i e h =
      let written = set_at xs z y free i e in
      let ih =
        copy_to-prefix ys (xs ++ y ∷ []) free (suc i) (omega (arith, length-append xs (y ∷ [])))
          (omega arith) in
      rw written (
        ap (λ ws. copy_to ws (suc i) ys) (sym (append_assoc xs (y ∷ []) free))
        ∙ ih
        ∙ ap (λ ws. ws ++ drop (length ys) free) (append_assoc xs (y ∷ []) ys))

  -- Writing a whole list at the append position appends it.
  pub copy_to-View :
      {q : SlidingQueue A} {seen shown added : List A} (ys : List A) (n : ℕ)
      → View q seen shown added
      → length ys ≡ n
      → length seen + length shown + length added + n ≤ length q.shared
      → View
          (record q { shared = copy_to q.shared q.shared_in ys; shared_in = q.shared_in + n })
          seen
          shown
          (added ++ ys)
  copy_to-View {q} {seen} {shown} {added} ys n v len room =
      let done : copy_to q.shared q.shared_in ys
          ≡ (seen ++ shown ++ added) ++ ys ++ drop (length ys) v.free =
        rw v.parts (
          copy_to-prefix ys (seen ++ shown ++ added) v.free q.shared_in
            (omega (arith, v.next, length-three seen shown added)) (omega (arith, slots-View v))) in
      record {
        free = drop (length ys) v.free;
        parts = done ∙ simp append_assoc;
        start = v.start;
        stop = v.stop;
        next = omega (arith, v.next, length-append added ys);
      }
