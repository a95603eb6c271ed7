-- ===== src/Builder/Prefix.antt =====
-- PrefixSum and ParallelPrefixSum of src/builder.h.
use gapbs_bfs_experiment.Base.{
  ℕ, zero, suc, ◌+◌, ◌-◌, ◌*◌, ◌/◌, ◌≤◌, ◌<◌, min, ◌≡◌, refl, ap, ◌∙◌, arith, ◌&&◌, List, foldl,
  map, length, get_or, set, range, replicate, leb, ltb, if◌then◌else◌, inl, inr, Bool-cases,
  length-set, length-replicate, read_after, ◌==◌, ==→eq,
}

-- One turn of the loops: sums[n] = total; total += degrees[n].
abbrev pub scan_step : List ℕ → List ℕ × ℕ → ℕ → List ℕ × ℕ
scan_step degrees (sums, total) n = (set sums n total, total + get_or degrees n 0)

-- `fresh` stands for what a new array holds.
unfoldable pub prefix_sum : ℕ → List ℕ → List ℕ
prefix_sum fresh degrees =
    let (sums, total) =
      foldl (scan_step degrees) (replicate (length degrees + 1) fresh, 0)
        (range 0 (length degrees)) in
    set sums (length degrees) total

unfoldable pub num_blocks : ℕ → ℕ → ℕ
num_blocks block_size size = (size + block_size - 1) / block_size

-- The iterations of one block.
unfoldable pub block_range : ℕ → ℕ → ℕ → List ℕ
block_range block_size size block =
    let block_end = min ((block + 1) * block_size) size in
    range (block * block_size) (block_end - block * block_size)

unfoldable pub block_sum : ℕ → List ℕ → ℕ → ℕ
unfolding block_range
block_sum block_size degrees block =
    foldl (λ lsum i. lsum + get_or degrees i 0) 0 (block_range block_size (length degrees) block)

-- The third loop, over the blocks.
unfoldable pub write_block : ℕ → List ℕ → List ℕ → List ℕ → ℕ → List ℕ
unfolding block_range
write_block block_size degrees bulk_prefix prefix block =
    (foldl (scan_step degrees) (prefix, get_or bulk_prefix block 0)
      (block_range block_size (length degrees) block)).0

-- block_size is 1 << 20 in the source. The loops over the blocks are parallel: no two blocks write
-- the same entry.
unfoldable pub parallel_prefix_sum : ℕ → ℕ → List ℕ → List ℕ
unfolding num_blocks block_sum write_block
parallel_prefix_sum block_size fresh degrees =
    let blocks = num_blocks block_size (length degrees) in
    let local_sums = map (block_sum block_size degrees) (range 0 blocks) in
    let (bulk, total) =
      foldl (scan_step local_sums) (replicate (blocks + 1) fresh, 0) (range 0 blocks) in
    let bulk_prefix = set bulk blocks total in
    let prefix =
      foldl (write_block block_size degrees bulk_prefix) (replicate (length degrees + 1) fresh)
        (range 0 blocks) in
    set prefix (length degrees) (get_or bulk_prefix blocks 0)

-- The sum of the first n entries.
unfoldable pub sum_before : List ℕ → ℕ → ℕ
sum_before degrees zero = 0
sum_before degrees (suc n) = sum_before degrees n + get_or degrees n 0

module _ (degrees : List ℕ) where
  pub record Scanned (first last : ℕ) (before : List ℕ) (after : List ℕ × ℕ) : Type 0 where
    pub total : after.1 ≡ sum_before degrees last
    pub size : length after.0 ≡ length before
    pub entries :
        (i : ℕ)
        → i < length before
        → get_or after.0 i 0
          ≡ (if leb first i && ltb i last then sum_before degrees i else get_or before i 0)

  pub scan_loop :
      (count first last : ℕ) (sums : List ℕ) (total : ℕ)
      → first + count ≡ last
      → total ≡ sum_before degrees first
      → Scanned first last sums (foldl (scan_step degrees) (sums, total) (range first count))
  scan_loop zero first last sums total ends h =
      let same : first ≡ last = omega arith in
      record {
        total = h ∙ ap (sum_before degrees) same;
        size = refl;
        entries = λ i lt. ground arith;
      }
  scan_loop (suc count) first last sums total ends h =
      let next : total + get_or degrees first 0 ≡ sum_before degrees (suc first) =
        unfold sum_before in omega (arith, h) in
      let s =
        scan_loop count (suc first) last (set sums first total) (total + get_or degrees first 0)
          (omega arith) next in
      record {
        total = s.total;
        size = s.size ∙ length-set sums first total;
        entries = λ i lt.
            let rest = s.entries i (omega (arith, length-set sums first total)) in
            elim (Bool-cases (first == i)) [
              | inl e ↦
                  let same : first ≡ i = ==→eq first i e in
                  let here = h ∙ ap (sum_before degrees) same in
                  ground (arith, rest, read_after 0 sums first i total lt, here)
              | inr e ↦ ground (arith, rest, read_after 0 sums first i total lt)
            ];
      }

  -- The prefix sums, entry by entry.
  pub length-prefix_sum : (fresh : ℕ) → length (prefix_sum fresh degrees) ≡ length degrees + 1
  unfolding prefix_sum
  length-prefix_sum fresh =
      let n = length degrees in
      let new = replicate (n + 1) fresh in
      let s = scan_loop n 0 n new 0 (omega arith) (unfold sum_before in refl) in
      length-set _ n _ ∙ s.size ∙ length-replicate (n + 1) fresh

  pub get_or-prefix_sum :
      (fresh i : ℕ)
      → i ≤ length degrees
      → get_or (prefix_sum fresh degrees) i 0 ≡ sum_before degrees i
  unfolding prefix_sum
  get_or-prefix_sum fresh i h =
      let n = length degrees in
      let new = replicate (n + 1) fresh in
      let s = scan_loop n 0 n new 0 (omega arith) (unfold sum_before in refl) in
      let done = foldl (scan_step degrees) (new, 0) (range 0 n) in
      let wide = length-replicate (n + 1) fresh in
      let last = read_after 0 done.0 n i done.1 (omega (arith, s.size, wide)) in
      elim (Bool-cases (n == i)) [
        | inl e ↦
            let same : n ≡ i = ==→eq n i e in
            let total = s.total ∙ ap (sum_before degrees) same in ground (arith, last, total)
        | inr e ↦ ground (arith, last, s.entries i, wide)
      ]
