-- ===== src/Builder/Slots.antt =====
-- MakeCSR of src/builder.h stores each arc in the slots of its source.
use gapbs_bfs_experiment.Base.{
  read_after, get_or-append_left, get_or-append_right, ℕ, zero, suc, ◌+◌, ◌≤◌, ◌<◌, ◌≡◌, refl, ap,
  ◌∙◌, sym, subst, arith, true, false, List, [], ◌∷◌, ◌++◌, foldl, length, get_or, set,
  if◌then◌else◌, inl, inr, Bool-cases, length-set, length-append, append_assoc, append-nil, ◌==◌,
  ==→eq, dec_le, ◌⊎◌,
}
use gapbs_bfs_experiment.Builder.{Filling, add_one, place}
use gapbs_bfs_experiment.Builder.Arcs.{Arc, targets, targets-append, Sourced, place_arc}

module _ (n : ℕ) (all : List Arc) (start : ℕ → ℕ)
    (room : (u : ℕ) → u < n → start (suc u) ≡ start u + length (targets u all)) where
  pub start_mono : (u w : ℕ) → u ≤ w → w ≤ n → start u ≤ start w
  start_mono u zero h le = let same : u ≡ zero = omega arith in omega (arith, ap start same)
  start_mono u (suc w) h le = elim (dec_le u w) [
    | yes below ↦ omega (arith, start_mono u w below (omega arith), room w (omega arith))
    | no at ↦ let same : u ≡ suc w = omega arith in omega (arith, ap start same)
  ]

  -- The slots of two vertices are apart.
  slots_apart :
      (u w k c : ℕ)
      → u < n
      → w < n
      → u == w ≡ false
      → k < length (targets u all)
      → c < length (targets w all)
      → (start w + c == start u + k) ≡ false
  slots_apart u w k c lu lw e hk hc = elim (dec_le (suc u) w) [
    | yes below ↦ ground (arith, start_mono (suc u) w below (omega arith), room u lu)
    | no above ↦
        let below : suc w ≤ u = ground arith in
        ground (arith, start_mono (suc w) u below (omega arith), room w lw)
  ]

  -- After the arcs `done` are placed.
  pub record Filled (done : List Arc) (f : Filling) : Type 0 where
    pub size : length f.neighs ≡ start n
    pub width : n ≤ length f.offsets
    pub cursor : (u : ℕ) → u < n → get_or f.offsets u 0 ≡ start u + length (targets u done)
    pub slots :
        (u k : ℕ)
        → u < n
        → k < length (targets u done)
        → get_or f.neighs (start u + k) 0 ≡ get_or (targets u done) k 0

  targets-le :
      (u : ℕ) (done rest : List Arc)
      → done ++ rest ≡ all
      → length (targets u done) + length (targets u rest) ≡ length (targets u all)
  targets-le u done rest h =
      sym (length-append (targets u done) (targets u rest))
      ∙ ap length (sym (targets-append u done rest))
      ∙ ap (λ xs. length (targets u xs)) h

  module _ (done : List Arc) (a : Arc) (rest : List Arc) (whole : done ++ (a ∷ rest) ≡ all)
      (from : a.0 < n) (f : Filling) (w : Filled done f) where
    more_room : length (targets a.0 done) < length (targets a.0 all)
    more_room = let split = targets-le a.0 done (a ∷ rest) whole in ground arith

    inside : start a.0 + length (targets a.0 done) < length f.neighs
    inside =
        omega (arith, more_room, room a.0 from, start_mono (suc a.0) n from (omega arith), w.size)

    own : (u : ℕ) → u == a.0 ≡ true → targets u (done ++ a ∷ []) ≡ targets u done ++ a.1 ∷ []
    own u e = targets-append u done (a ∷ []) ∙ rw e refl

    other : (u : ℕ) → u == a.0 ≡ false → targets u (done ++ a ∷ []) ≡ targets u done
    other u e = targets-append u done (a ∷ []) ∙ rw e (append-nil (targets u done))

    cursor_after :
        (u : ℕ)
        → u < n
        → get_or (add_one f.offsets a.0) u 0 ≡ start u + length (targets u (done ++ a ∷ []))
    cursor_after u lt =
        let look =
          read_after 0 f.offsets a.0 u (get_or f.offsets a.0 0 + 1) (omega (arith, w.width)) in
        elim (Bool-cases (u == a.0)) [
          | inl e ↦
              let same : u ≡ a.0 = ==→eq u a.0 e in
              let at = ap (λ x. get_or f.offsets x 0) same in
              let len = ap length (own u e) ∙ length-append (targets u done) (a.1 ∷ []) in
              ground (arith, look, w.cursor u lt, at, len)
          | inr e ↦ ground (arith, look, w.cursor u lt, ap length (other u e))
        ]

    within : (u k : ℕ) → k < length (targets u (done ++ a ∷ [])) → k < length (targets u all)
    within u k h =
        let split = targets-le u (done ++ a ∷ []) rest (append_assoc done (a ∷ []) rest ∙ whole) in
        omega (arith, split)

    inside_all : (u k : ℕ) → u < n → k < length (targets u all) → start u + k < length f.neighs
    inside_all u k lt h = omega (arith, room u lt, start_mono (suc u) n lt (omega arith), w.size)

    by_owner :
        (u k : ℕ)
        → u < n
        → k < length (targets u (done ++ a ∷ []))
        → (u == a.0 ≡ true) ⊎ (u == a.0 ≡ false)
        → (if start a.0 + length (targets a.0 done) == start u + k
            then a.1
            else get_or f.neighs (start u + k) 0)
          ≡ get_or (targets u (done ++ a ∷ [])) k 0
    by_owner u k lt h (inl e) =
        let same : u ≡ a.0 = ==→eq u a.0 e in
        let len = ap length (own u e) ∙ length-append (targets u done) (a.1 ∷ []) in
        let begin = ap start same in
        let count = ap (λ x. length (targets x done)) same in
        let old : k < length (targets u done)
            → get_or (targets u done ++ a.1 ∷ []) k 0 ≡ get_or (targets u done) k 0 =
          λ b. get_or-append_left (targets u done) (a.1 ∷ []) k b in
        rw (own u e) (elim (Bool-cases (length (targets u done) == k)) [
          | inl last ↦
              let new = get_or-append_right (targets u done) (a.1 ∷ []) 0 k (ground arith) in
              ground (arith, new, begin, count)
          | inr earlier ↦
              let b : k < length (targets u done) = ground (arith, len) in
              ground (arith, old b, w.slots u k lt b, begin, count)
        ])
    by_owner u k lt h (inr e) =
        let apart =
          slots_apart u a.0 k (length (targets a.0 done)) lt from e (within u k h) more_room in
        rw (other u e, apart) (w.slots u k lt (omega (arith, ap length (other u e))))

    slots_after :
        (u k : ℕ)
        → u < n
        → k < length (targets u (done ++ a ∷ []))
        → get_or (set f.neighs (get_or f.offsets a.0 0) a.1) (start u + k) 0
          ≡ get_or (targets u (done ++ a ∷ [])) k 0
    slots_after u k lt h =
        let slot = w.cursor a.0 from in
        let before = inside_all u k lt (within u k h) in
        rw slot (
          read_after 0 f.neighs (start a.0 + length (targets a.0 done)) (start u + k) a.1 before
          ∙ by_owner u k lt h (Bool-cases (u == a.0)))

    Filled-place : Filled (done ++ a ∷ []) (place_arc f a)
    unfolding place
    Filled-place = record {
      size = length-set f.neighs _ a.1 ∙ w.size;
      width = omega (arith, w.width, length-set f.offsets a.0 (get_or f.offsets a.0 0 + 1));
      cursor = cursor_after;
      slots = slots_after;
    }

  pub Filled-all :
      (rest done : List Arc) (f : Filling)
      → Sourced n rest
      → done ++ rest ≡ all
      → Filled done f
      → Filled all (foldl place_arc f rest)
  Filled-all [] done f low whole w =
      let same : done ≡ all = sym (append-nil done) ∙ whole in subst (λ d. Filled d f) same w
  Filled-all (a ∷ rest) done f low whole w =
      Filled-all rest (done ++ a ∷ []) (place_arc f a) low.1
        (append_assoc done (a ∷ []) rest ∙ whole) (Filled-place done a rest whole low.0 f w)
