-- ===== src/Builder/Blocks.antt =====
-- ParallelPrefixSum of src/builder.h computes what PrefixSum computes.
use native.Mathlib.Nat
use gapbs_bfs_experiment.Base.{
  ℕ, zero, suc, ◌+◌, ◌-◌, ◌*◌, ◌≤◌, ◌<◌, min, ◌≡◌, refl, ap, ◌∙◌, sym, arith, ◌&&◌, List, foldl,
  map, length, get_or, set, range, replicate, leb, ltb, if◌then◌else◌, inl, inr, Bool-cases,
  length-set, length-replicate, length-range, length-map, get_or-map-range, read_after, entries_ext,
  ◌==◌, ==→eq,
}
use gapbs_bfs_experiment.Builder.Prefix.{
  scan_step, prefix_sum, num_blocks, block_range, block_sum, write_block, parallel_prefix_sum,
  sum_before, scan_loop, length-prefix_sum, get_or-prefix_sum,
}

module _ (block_size : ℕ) (pos_size : 0 < block_size) (degrees : List ℕ) where
  abbrev size : ℕ
  size = length degrees

  abbrev blocks : ℕ
  blocks = num_blocks block_size (length degrees)

  next_block : (b : ℕ) → (b + 1) * block_size ≡ b * block_size + block_size
  next_block b = omega (arith, Nat.add-mul b 1 block_size)

  -- The blocks reach the end of the array, and each of them begins before it.
  blocks_reach :
      (length degrees ≤ blocks * block_size) × (blocks * block_size < length degrees + block_size)
  unfolding num_blocks
  blocks_reach =
      let n = length degrees + block_size - 1 in
      let split = Nat.div-add-mod' n block_size in
      let rest = Nat.mod-lt n pos_size in (omega (arith, split, rest), omega (arith, split, rest))

  block_begins : (b : ℕ) → b < blocks → b * block_size < length degrees
  block_begins b h =
      let step = next_block b in
      let mono : (b + 1) * block_size ≤ blocks * block_size =
        Nat.mul-le-mul_right block_size (omega arith) in
      omega (arith, blocks_reach)

  sum_loop :
      (count first last total : ℕ)
      → first + count ≡ last
      → foldl (λ lsum i. lsum + get_or degrees i 0) total (range first count)
          + sum_before degrees first
        ≡ total + sum_before degrees last
  sum_loop zero first last total h =
      let same : first ≡ last = omega arith in omega (arith, ap (sum_before degrees) same)
  sum_loop (suc count) first last total h =
      let next : sum_before degrees (suc first)
          ≡ sum_before degrees first + get_or degrees first 0 =
        unfold sum_before in refl in
      omega (arith, sum_loop count (suc first) last (total + get_or degrees first 0) (omega arith))

  block_sum_lem :
      (b : ℕ)
      → b < blocks
      → block_sum block_size degrees b + sum_before degrees (b * block_size)
        ≡ sum_before degrees (min ((b + 1) * block_size) (length degrees))
  unfolding block_sum block_range
  block_sum_lem b h =
      let begins = block_begins b h in
      let step = next_block b in
      let last = min ((b + 1) * block_size) (length degrees) in
      sum_loop (last - b * block_size) (b * block_size) last 0 (omega arith)
      ∙ Nat.zero-add (sum_before degrees last)

  abbrev local_sums : List ℕ
  local_sums = map (block_sum block_size degrees) (range 0 blocks)

  bulk_sum :
      (b : ℕ)
      → b ≤ blocks
      → sum_before local_sums b ≡ sum_before degrees (min (b * block_size) (length degrees))
  bulk_sum zero h =
      let none_before : 0 ≡ min (0 * block_size) (length degrees) =
        omega (arith, Nat.zero-mul block_size) in
      unfold sum_before in ap (sum_before degrees) none_before
  bulk_sum (suc b) h =
      let begins = block_begins b (omega arith) in
      let start : min (b * block_size) (length degrees) ≡ b * block_size = omega arith in
      let stop : min ((b + 1) * block_size) (length degrees)
          ≡ min (suc b * block_size) (length degrees) =
        omega (arith, next_block b, Nat.suc-mul b block_size) in
      let mine : get_or local_sums b 0 ≡ block_sum block_size degrees b =
        get_or-map-range (block_sum block_size degrees) 0 blocks b 0 (omega arith)
        ∙ ap (block_sum block_size degrees) (Nat.zero-add b) in
      let next : sum_before local_sums (suc b) ≡ sum_before local_sums b + get_or local_sums b 0 =
        unfold sum_before in refl in
      omega (
        arith,
        next,
        mine,
        bulk_sum b (omega arith),
        block_sum_lem b (omega arith),
        ap (sum_before degrees) start,
        ap (sum_before degrees) stop,
      )

  -- What the third loop has written after the blocks `first` to `last`.
  record Written (first last : ℕ) (before after : List ℕ) : Type 0 where
    same : length after ≡ length before
    entries :
        (i : ℕ)
        → i < length before
        → get_or after i 0 ≡ (
            if leb (first * block_size) i && (ltb i (last * block_size) && ltb i (length degrees))
            then sum_before degrees i
            else get_or before i 0)

  module _ (bulk_prefix : List ℕ)
      (bulk : (b : ℕ)
        → b < blocks
        → get_or bulk_prefix b 0 ≡ sum_before degrees (b * block_size)) where
    Written-block :
        (b : ℕ) (prefix : List ℕ)
        → b < blocks
        → Written b (suc b) prefix (write_block block_size degrees bulk_prefix prefix b)
    unfolding write_block block_range
    Written-block b prefix h =
        let begins = block_begins b h in
        let step = next_block b in
        let last = min ((b + 1) * block_size) (length degrees) in
        let stop : suc b * block_size ≡ b * block_size + block_size = Nat.suc-mul b block_size in
        let s =
          scan_loop degrees (last - b * block_size) (b * block_size) last prefix
            (get_or bulk_prefix b 0) (omega arith) (bulk b h) in
        record { same = s.size; entries = λ i lt. ground (arith, s.entries i lt) }

    Written-blocks :
        (count first last : ℕ) (prefix : List ℕ)
        → first + count ≡ last
        → last ≤ blocks
        → Written first last prefix
            (foldl (write_block block_size degrees bulk_prefix) prefix (range first count))
    Written-blocks zero first last prefix h le =
        let none_left : first ≡ last = omega arith in
        let here = ap (λ k. k * block_size) none_left in
        record { same = refl; entries = λ i lt. ground arith }
    Written-blocks (suc count) first last prefix h le =
        let one = Written-block first prefix (omega arith) in
        let rest =
          Written-blocks count (suc first) last
            (write_block block_size degrees bulk_prefix prefix first) (omega arith) le in
        let step = Nat.suc-mul first block_size in
        let mono : suc first * block_size ≤ last * block_size =
          Nat.mul-le-mul_right block_size (omega arith) in
        record {
          same = rest.same ∙ one.same;
          entries =
              λ i lt. ground (arith, rest.entries i (omega (arith, one.same)), one.entries i lt);
        }

  -- The second loop is the serial sum of the blocks' sums.
  abbrev bulk_prefix : ℕ → List ℕ
  bulk_prefix fresh =
      let s = foldl (scan_step local_sums) (replicate (blocks + 1) fresh, 0) (range 0 blocks) in
      set s.0 blocks s.1

  bulk_prefix-prefix_sum : (fresh : ℕ) → bulk_prefix fresh ≡ prefix_sum fresh local_sums
  unfolding prefix_sum
  bulk_prefix-prefix_sum fresh =
      let len : length local_sums ≡ blocks =
        length-map (block_sum block_size degrees) (range 0 blocks) ∙ length-range 0 blocks in
      ap
        (λ k.
          let s = foldl (scan_step local_sums) (replicate (k + 1) fresh, 0) (range 0 k) in
          set s.0 k s.1)
        (sym len)

  get_or-bulk_prefix :
      (fresh b : ℕ)
      → b ≤ blocks
      → get_or (bulk_prefix fresh) b 0 ≡ sum_before degrees (min (b * block_size) (length degrees))
  get_or-bulk_prefix fresh b h =
      let len : length local_sums ≡ blocks =
        length-map (block_sum block_size degrees) (range 0 blocks) ∙ length-range 0 blocks in
      ap (λ xs. get_or xs b 0) (bulk_prefix-prefix_sum fresh)
      ∙ get_or-prefix_sum local_sums fresh b (omega (arith, len))
      ∙ bulk_sum b h

  bulk_at_start :
      (fresh b : ℕ)
      → b < blocks
      → get_or (bulk_prefix fresh) b 0 ≡ sum_before degrees (b * block_size)
  bulk_at_start fresh b h =
      let begins = block_begins b h in
      let start : min (b * block_size) (length degrees) ≡ b * block_size = omega arith in
      get_or-bulk_prefix fresh b (omega arith) ∙ ap (sum_before degrees) start

  bulk_total :
      (fresh : ℕ) → get_or (bulk_prefix fresh) blocks 0 ≡ sum_before degrees (length degrees)
  bulk_total fresh =
      let reach = blocks_reach in
      let all : min (blocks * block_size) (length degrees) ≡ length degrees = omega arith in
      get_or-bulk_prefix fresh blocks (omega arith) ∙ ap (sum_before degrees) all

  abbrev written : ℕ → List ℕ
  written fresh =
      foldl (write_block block_size degrees (bulk_prefix fresh))
        (replicate (length degrees + 1) fresh) (range 0 blocks)

  Written-all :
      (fresh : ℕ) → Written 0 blocks (replicate (length degrees + 1) fresh) (written fresh)
  Written-all fresh =
      Written-blocks (bulk_prefix fresh) (bulk_at_start fresh) blocks 0 blocks
        (replicate (length degrees + 1) fresh) (omega arith) (omega arith)

  -- For any positive block size, and whatever the new arrays hold, ParallelPrefixSum computes what
  -- PrefixSum computes.
  pub parallel_prefix_sum_lem :
      (fresh fresh' : ℕ) → parallel_prefix_sum block_size fresh degrees ≡ prefix_sum fresh' degrees
  unfolding parallel_prefix_sum
  parallel_prefix_sum_lem fresh fresh' =
      let n = length degrees in
      let w = Written-all fresh in
      let wide = length-replicate (n + 1) fresh in
      let total = get_or (bulk_prefix fresh) blocks 0 in
      let size = length-set (written fresh) n total ∙ w.same ∙ wide in
      entries_ext (set (written fresh) n total) (prefix_sum fresh' degrees) 0
        (size ∙ sym (length-prefix_sum degrees fresh'))
        (λ i lt.
          let bound : i ≤ n = omega (arith, size) in
          let serial = get_or-prefix_sum degrees fresh' i bound in
          let last = read_after 0 (written fresh) n i total (omega (arith, w.same, wide)) in
          let reach = blocks_reach in
          let zero_start : 0 * block_size ≡ 0 = Nat.zero-mul block_size in
          elim (Bool-cases (n == i)) [
            | inl e ↦
                let same : n ≡ i = ==→eq n i e in
                let all = bulk_total fresh ∙ ap (sum_before degrees) same in
                ground (arith, last, serial, all)
            | inr e ↦ ground (arith, last, serial, w.entries i (omega (arith, wide)))
          ])
