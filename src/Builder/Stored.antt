-- ===== src/Builder/Stored.antt =====
-- MakeCSR of src/builder.h against the arcs of its edges.
use native.Mathlib.Nat
use gapbs_bfs_experiment.Base.{
  ℕ, zero, suc, ◌+◌, ◌-◌, ◌^◌, ◌≤◌, ◌<◌, min, ◌≡◌, refl, ap, ◌∙◌, sym, arith, Bool, false, List, [],
  ◌∷◌, foldl, length, get_or, take, drop, replicate, length-take, length-drop, length-replicate,
  entries_ext,
}
use gapbs_bfs_experiment.Graph.{neighborhood, gen_index}
use gapbs_bfs_experiment.Builder.{EdgePair, Settings, count_degrees, Filling, place_edge, make_csr}
use gapbs_bfs_experiment.Builder.Prefix.{
  parallel_prefix_sum, sum_before, length-prefix_sum, get_or-prefix_sum,
}
use gapbs_bfs_experiment.Builder.Blocks.{parallel_prefix_sum_lem}
use gapbs_bfs_experiment.Builder.Arcs.{
  Arc, arcs, targets, Sourced, place_edges, get_or-count_degrees, length-count_degrees,
}
use gapbs_bfs_experiment.Builder.Slots.{Filled, Filled-all, start_mono}

get_or-drop : (n i : ℕ) (xs : List ℕ) → get_or (drop n xs) i 0 ≡ get_or xs (n + i) 0
get_or-drop zero i xs = ap (λ k. get_or xs k 0) (sym (Nat.zero-add i))
get_or-drop (suc n) i [] = refl
get_or-drop (suc n) i (x ∷ xs) =
    get_or-drop n i xs ∙ ap (λ k. get_or (x ∷ xs) k 0) (sym (Nat.suc-add n i))

get_or-take : (n i : ℕ) (xs : List ℕ) → i < n → get_or (take n xs) i 0 ≡ get_or xs i 0
get_or-take zero i xs h = absurd (omega arith)
get_or-take (suc n) i [] h = refl
get_or-take (suc n) zero (x ∷ xs) h = refl
get_or-take (suc n) (suc i) (x ∷ xs) h = get_or-take n i xs (omega arith)

get_or-gen_index :
    (offsets : List ℕ) (i : ℕ) → get_or (gen_index 0 offsets) i 0 ≡ get_or offsets i 0
unfolding gen_index
get_or-gen_index [] i = refl
get_or-gen_index (x ∷ offsets) zero = Nat.zero-add x
get_or-gen_index (x ∷ offsets) (suc i) = get_or-gen_index offsets i

neighborhood-slice :
    (index neighs : List ℕ) (u first last : ℕ)
    → get_or index u 0 ≡ first
    → get_or index (u + 1) 0 ≡ last
    → neighborhood index neighs u 0 ≡ take (last - first) (drop first neighs)
unfolding neighborhood
neighborhood-slice index neighs u first last p q =
    let none_skipped : first + min 0 (last - first) ≡ first = omega arith in
    rw (p, q, none_skipped) refl

-- A slice of an array, by its entries.
slice_ext :
    (xs ys : List ℕ) (first last : ℕ)
    → first + length ys ≡ last
    → last ≤ length xs
    → ((k : ℕ) → k < length ys → get_or xs (first + k) 0 ≡ get_or ys k 0)
    → take (last - first) (drop first xs) ≡ ys
slice_ext xs ys first last ends inside same =
    let rest = length-drop first xs in
    let size : length (take (last - first) (drop first xs)) ≡ last - first =
      length-take (last - first) (drop first xs) (omega arith) in
    entries_ext (take (last - first) (drop first xs)) ys 0 (omega arith) (λ k lt.
      get_or-take (last - first) k (drop first xs) (omega arith)
      ∙ get_or-drop first k xs
      ∙ same k (omega arith))

module _ (o : Settings) (fresh n : ℕ) (el : List EdgePair) (transpose : Bool)
    (apart : o.in_place ≡ false) (pos_size : 0 < o.block_size)
    (low : Sourced n (arcs o.symmetrize transpose el))
    (few : length (arcs o.symmetrize transpose el) < 2 ^ 31) where
  abbrev all : List Arc
  all = arcs o.symmetrize transpose el

  abbrev degrees : List ℕ
  degrees = count_degrees o n transpose el

  abbrev offsets : List ℕ
  offsets = parallel_prefix_sum o.block_size fresh degrees

  start : ℕ → ℕ
  start = sum_before degrees

  room : (u : ℕ) → u < n → start (suc u) ≡ start u + length (targets u all)
  unfolding start sum_before
  room u h = omega (arith, get_or-count_degrees o n transpose el u apart h few)

  offsets-start : (i : ℕ) → i ≤ n → get_or offsets i 0 ≡ start i
  unfolding start
  offsets-start i h =
      ap (λ xs. get_or xs i 0) (parallel_prefix_sum_lem o.block_size pos_size degrees fresh fresh)
      ∙ get_or-prefix_sum degrees fresh i
          (omega (arith, length-count_degrees o n transpose el apart))

  length-offsets : length offsets ≡ n + 1
  length-offsets =
      ap length (parallel_prefix_sum_lem o.block_size pos_size degrees fresh fresh)
      ∙ length-prefix_sum degrees fresh
      ∙ ap (λ k. k + 1) (length-count_degrees o n transpose el apart)

  abbrev empty_slots : Filling
  empty_slots = record { neighs = replicate (get_or offsets n 0) fresh; offsets = offsets }

  filled : Filled n all start room all (foldl (place_edge o transpose) empty_slots el)
  filled =
      let first : Filled n all start room [] empty_slots = record {
        size = length-replicate (get_or offsets n 0) fresh ∙ offsets-start n (omega arith);
        width = omega (arith, length-offsets);
        cursor = λ u lt. offsets-start u (omega arith) ∙ sym (Nat.add-zero (start u));
        slots = λ u k lt h. absurd (omega arith);
      } in
      rw (place_edges o transpose el empty_slots)
        (Filled-all n all start room all [] empty_slots low refl first)

  -- Where the edges are not built in place, the block size is positive, the sources of the arcs are
  -- vertices and there are fewer than 2^31 arcs: the neighbours that MakeCSR stores for a vertex are the targets of the arcs out of it, in
  -- the order of the edges. The arcs are the edges, or with transpose their reverses, or with symmetrize
  -- both.
  pub neighborhood-make_csr :
      (u : ℕ)
      → u < n
      → let (index, neighs) = make_csr o fresh n el transpose in
        neighborhood index neighs u 0 ≡ targets u (arcs o.symmetrize transpose el)
  unfolding make_csr
  neighborhood-make_csr u h =
      let neighs = (foldl (place_edge o transpose) empty_slots el).neighs in
      let next : u + 1 ≡ suc u = omega arith in
      let first = get_or-gen_index offsets u ∙ offsets-start u (omega arith) in
      let last =
        get_or-gen_index offsets (u + 1) ∙ offsets-start (u + 1) (omega arith) ∙ ap start next in
      neighborhood-slice (gen_index 0 offsets) neighs u (start u) (start (suc u)) first last
      ∙ slice_ext neighs (targets u all) (start u) (start (suc u)) (sym (room u h))
          (omega (arith, filled.size, start_mono n all start room (suc u) n h (omega arith)))
          (λ k lt. filled.slots u k h lt)

  pub degree-make_csr :
      (u : ℕ)
      → u < n
      → let (index, neighs) = make_csr o fresh n el transpose in
        get_or index (u + 1) 0 - get_or index u 0
        ≡ length (targets u (arcs o.symmetrize transpose el))
  unfolding make_csr
  degree-make_csr u h =
      let next : u + 1 ≡ suc u = omega arith in
      let first = get_or-gen_index offsets u ∙ offsets-start u (omega arith) in
      let last =
        get_or-gen_index offsets (u + 1) ∙ offsets-start (u + 1) (omega arith) ∙ ap start next in
      omega (arith, first, last, room u h)
