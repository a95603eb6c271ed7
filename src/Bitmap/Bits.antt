-- ===== src/Bitmap/Bits.antt =====
-- The bitmap of src/bitmap.h as a set of positions.
use gapbs_bfs_experiment.Base.{
  ℕ, zero, ◌+◌, ◌-◌, ◌*◌, ◌/◌, ◌%◌, ◌^◌, ◌≤◌, ◌<◌, length-replicate, ◌≡◌, refl, arith, true, false,
  not, length, get_or, get_or-set, get_or-const, length-set, length-map, ◌==◌, if◌then◌else◌,
}
use gapbs_bfs_experiment.Bitmap.{
  Bitmap, alloc, bits_per_word, word_offset, reset, word, with_bit, set_bit, get_bit,
}
use gapbs_bfs_experiment.Bitmap.Words.{
  bit, bit_and-one, bit_and-63, shift-bit, bit-bit_or, bit_of_zero,
}

-- The positions that the words hold.
abbrev pub size : Bitmap → ℕ
size b = bits_per_word * length b.words

-- `get_bit` reads one binary digit of one word.
pub get_bit-bit :
    (b : Bitmap) (pos : ℕ) → get_bit b pos ≡ not (bit (get_or b.words (pos / 64) 0) (pos % 64) == 0)
unfolding get_bit
get_bit-bit b pos =
    let w = word b pos in
    rw (bit_and-63 pos, bit_and-one (w / 2 ^ (pos % 64)), shift-bit w (pos % 64)) refl

split-eq : (p q : ℕ) → p / 64 ≡ q / 64 → p % 64 ≡ q % 64 → p ≡ q
split-eq p q d m = omega arith

-- Setting bit `pos` inside the bitmap makes that bit read true, and every other read as before.
pub get_bit-set_bit :
    (b : Bitmap) (pos q : ℕ)
    → pos < size b
    → get_bit (set_bit b pos) q ≡ (if pos == q then true else get_bit b q)
unfolding set_bit with_bit
get_bit-set_bit b pos q h =
    rw (get_bit-bit (set_bit b pos) q, get_bit-bit b q, bit_and-63 pos)
      (ground (
        arith,
        get_or-set b.words (pos / 64) (q / 64) (with_bit (word b pos) pos) 0,
        bit_and-63 pos,
        bit-bit_or (pos % 64) (q % 64) (word b pos),
        split-eq pos q,
      ))

-- After a reset no bit is set.
pub get_bit-reset : (b : Bitmap) (q : ℕ) → get_bit (reset b) q ≡ false
unfolding reset
get_bit-reset b q =
    rw (get_bit-bit (reset b) q, get_or-const b.words (q / 64) (zero), bit_of_zero (q % 64)) refl

pub size-reset : (b : Bitmap) → size (reset b) ≡ size b
unfolding reset
size-reset b = rw (length-map (λ _. zero) b.words)

pub size-set_bit : (b : Bitmap) (pos : ℕ) → size (set_bit b pos) ≡ size b
unfolding set_bit
size-set_bit b pos = rw (length-set b.words (word_offset pos) (with_bit (word b pos) pos))

-- The allocated words hold at least the bits asked for.
pub size-alloc : (fresh n : ℕ) → n ≤ size (alloc fresh n)
unfolding alloc
size-alloc fresh n = omega (arith, length-replicate ((n + bits_per_word - 1) / bits_per_word) fresh)
