-- ===== src/Bitmap.antt =====
-- The class Bitmap of src/bitmap.h: an array of 64-bit words read and written bit by bit.
mod Words
pub mod Bits
pub mod Races
use Prim.Native.Nat.{bit_and, bit_or}
use gapbs_bfs_experiment.Base.{
  ℕ, zero, suc, ◌+◌, ◌-◌, ◌*◌, ◌/◌, ◌^◌, Bool, true, false, not, List, [], ◌∷◌, map, set, get_or,
  replicate, ◌==◌, if◌then◌else◌,
}

abbrev pub bits_per_word : ℕ
bits_per_word = 64

-- `start_` to `end_`, one number below 2 ^ 64 for each word.
pub record Bitmap : Type 0 where
  pub words : List ℕ

abbrev pub word_offset : ℕ → ℕ
word_offset n = n / bits_per_word

abbrev pub bit_offset : ℕ → ℕ
bit_offset n = bit_and n (bits_per_word - 1)

-- The constructor allocates and does not initialise: `fresh` is what the memory held.
unfoldable pub alloc : ℕ → ℕ → Bitmap
alloc fresh size = record { words = replicate ((size + bits_per_word - 1) / bits_per_word) fresh }

unfoldable pub reset : Bitmap → Bitmap
reset b = record { words = map (λ _. 0) b.words }

abbrev pub word : Bitmap → ℕ → ℕ
word b pos = get_or b.words (word_offset pos) 0

-- The value that a write of bit `pos` stores: old_val | ((uint64_t) 1l << bit_offset(pos)).
unfoldable pub with_bit : ℕ → ℕ → ℕ
with_bit old_val pos = bit_or old_val (2 ^ bit_offset pos)

unfoldable pub set_bit : Bitmap → ℕ → Bitmap
unfolding with_bit
set_bit b pos = record { words = set b.words (word_offset pos) (with_bit (word b pos) pos) }

-- The shifted word is cut to its low bit, and converted to bool.
unfoldable pub get_bit : Bitmap → ℕ → Bool
get_bit b pos = not (bit_and (word b pos / 2 ^ bit_offset pos) 1 == 0)

unfoldable pub swap : Bitmap × Bitmap → Bitmap × Bitmap
swap (a, b) = (b, a)

-- The builtin compare_and_swap on one word, which acts as one step.
unfoldable pub compare_and_swap : Bitmap → ℕ → ℕ → ℕ → Bool × Bitmap
compare_and_swap b i old_val new_val =
    if get_or b.words i 0 == old_val
    then (true, record { words = set b.words i new_val })
    else (false, b)

-- `set_bit_atomic`. Between the read of a round and its compare_and_swap the other threads act once
-- as the list says, and not at all past its end. The result comes with the actions left.
unfoldable pub set_bit_atomic :
    Bitmap → ℕ → List (Bitmap → Bitmap) → Bitmap × List (Bitmap → Bitmap)
unfolding compare_and_swap with_bit
set_bit_atomic b pos [] =
    let old_val = word b pos in
    ((compare_and_swap b (word_offset pos) old_val (with_bit old_val pos)).1, [])
set_bit_atomic b pos (act ∷ later) =
    let old_val = word b pos in
    let (done, b') = compare_and_swap (act b) (word_offset pos) old_val (with_bit old_val pos) in
    let again = set_bit_atomic b' pos later in if done then (b', later) else again
