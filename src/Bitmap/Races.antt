-- ===== src/Bitmap/Races.antt =====
-- `set_bit_atomic` of src/bitmap.h among other threads.
use gapbs_bfs_experiment.Base.{
  ℕ, zero, suc, ◌<◌, ◌≡◌, refl, ap, ◌∙◌, arith, Bool, true, false, ◌||◌, List, [], ◌∷◌, map, drop,
  elem, ◌==◌, if◌then◌else◌, inl, inr, Bool-cases, ==→eq, AllLt,
}
use gapbs_bfs_experiment.Bitmap.{
  Bitmap, word, word_offset, with_bit, set_bit, get_bit, compare_and_swap, set_bit_atomic,
}
use gapbs_bfs_experiment.Bitmap.Bits.{size, get_bit-set_bit, size-set_bit}

-- The first `k` actions of the list.
abbrev pub acted : ℕ → List (Bitmap → Bitmap) → Bitmap → Bitmap
acted zero acts b = b
acted (suc k) [] b = b
acted (suc k) (act ∷ acts) b = acted k acts (act b)

abbrev pub act_all : List (Bitmap → Bitmap) → Bitmap → Bitmap
act_all [] b = b
act_all (act ∷ acts) b = act_all acts (act b)

compare_and_swap-set_bit :
    (b : Bitmap) (pos old_val : ℕ)
    → (compare_and_swap b (word_offset pos) old_val (with_bit old_val pos)
        ≡ (if word b pos == old_val then (true, set_bit b pos) else (false, b)))
unfolding compare_and_swap set_bit
compare_and_swap-set_bit b pos old_val = elim (Bool-cases (word b pos == old_val)) [
  | inl e ↦ rw (e, ==→eq (word b pos) old_val e)
  | inr e ↦ rw e
]

-- A call of `set_bit_atomic` takes effect at one moment: its result is `set_bit` after the first `k`
-- actions of the other threads, for some `k`, and the later actions are still to come.
pub set_bit_atomic-set_bit :
    (b : Bitmap) (pos : ℕ) (acts : List (Bitmap → Bitmap))
    → (k : ℕ) × (set_bit_atomic b pos acts ≡ (set_bit (acted k acts b) pos, drop k acts))
unfolding set_bit_atomic
set_bit_atomic-set_bit b pos [] = (0, ground (arith, compare_and_swap-set_bit b pos (word b pos)))
set_bit_atomic-set_bit b pos (act ∷ later) = elim (Bool-cases (word (act b) pos == word b pos)) [
  | inl e ↦ (1, ground (arith, compare_and_swap-set_bit (act b) pos (word b pos)))
  | inr e ↦
      let (k, ih) = set_bit_atomic-set_bit (act b) pos later in
      (suc k, ground (arith, compare_and_swap-set_bit (act b) pos (word b pos)))
]

abbrev pub set_bits : List ℕ → Bitmap → Bitmap
set_bits [] b = b
set_bits (p ∷ ps) b = set_bits ps (set_bit b p)

pub size-set_bits : (ps : List ℕ) (b : Bitmap) → size (set_bits ps b) ≡ size b
size-set_bits [] b = refl
size-set_bits (p ∷ ps) b = size-set_bits ps (set_bit b p) ∙ size-set_bit b p

pub get_bit-set_bits :
    (ps : List ℕ) (b : Bitmap) (q : ℕ)
    → AllLt (size b) ps
    → get_bit (set_bits ps b) q ≡ (elem q ps || get_bit b q)
get_bit-set_bits [] b q h = refl
get_bit-set_bits (p ∷ ps) b q h =
    let ih = get_bit-set_bits ps (set_bit b p) q (rw (size-set_bit b p) h.1) in
    ground (arith, get_bit-set_bit b p q)

act_all-drop :
    (k : ℕ) (acts : List (Bitmap → Bitmap)) (b : Bitmap)
    → act_all (drop k acts) (acted k acts b) ≡ act_all acts b
act_all-drop zero acts b = refl
act_all-drop (suc k) [] b = refl
act_all-drop (suc k) (act ∷ acts) b = act_all-drop k acts (act b)

-- What the other threads do in one round: they set these bits, in this order.
abbrev pub setters : List ℕ → Bitmap → Bitmap
setters ps b = set_bits ps b

abbrev pub AllInside : ℕ → List (List ℕ) → Type 0
AllInside n [] = Unit {0}
AllInside n (ps ∷ rounds) = AllLt n ps × AllInside n rounds

abbrev pub some_round : ℕ → List (List ℕ) → Bool
some_round q [] = false
some_round q (ps ∷ rounds) = elem q ps || some_round q rounds

late_set_bits :
    (rounds : List (List ℕ)) (b : Bitmap) (q : ℕ)
    → AllInside (size b) rounds
    → get_bit (act_all (map setters rounds) b) q ≡ (some_round q rounds || get_bit b q)
late_set_bits [] b q hs = refl
late_set_bits (ps ∷ rounds) b q hs =
    let ih = late_set_bits rounds (set_bits ps b) q (rw (size-set_bits ps b) hs.1) in
    ground (arith, ih, get_bit-set_bits ps b q hs.0)

late_set_bit :
    (k : ℕ) (rounds : List (List ℕ)) (b : Bitmap) (pos q : ℕ)
    → pos < size b
    → AllInside (size b) rounds
    → get_bit
        (act_all (drop k (map setters rounds)) (set_bit (acted k (map setters rounds) b) pos))
        q
      ≡ (pos == q || (some_round q rounds || get_bit b q))
late_set_bit zero rounds b pos q h hs =
    let ih = late_set_bits rounds (set_bit b pos) q (rw (size-set_bit b pos) hs) in
    ground (arith, ih, get_bit-set_bit b pos q h)
late_set_bit (suc k) [] b pos q h hs = ground (arith, get_bit-set_bit b pos q h)
late_set_bit (suc k) (ps ∷ rounds) b pos q h hs =
    let same = size-set_bits ps b in
    let ih = late_set_bit k rounds (set_bits ps b) pos q (omega (arith, same)) (rw same hs.1) in
    ground (arith, ih, get_bit-set_bits ps b q hs.0)

-- No update is lost: between each read of set_bit_atomic and its compare_and_swap, and after the call,
-- other threads set bits of the same bitmap, as many as they like or none; the bits that read true in the
-- end are those set before, those that the other threads set, and `pos`.
pub get_bit-set_bit_atomic :
    (b : Bitmap) (pos q : ℕ) (rounds : List (List ℕ))
    → pos < size b
    → AllInside (size b) rounds
    → let (b', later) = set_bit_atomic b pos (map setters rounds) in
      get_bit (act_all later b') q ≡ (pos == q || (some_round q rounds || get_bit b q))
get_bit-set_bit_atomic b pos q rounds h hs =
    let (k, e) = set_bit_atomic-set_bit b pos (map setters rounds) in
    rw e (late_set_bit k rounds b pos q h hs)

-- With no other thread about, it is `set_bit`.
pub set_bit_atomic_alone : (b : Bitmap) (pos : ℕ) → (set_bit_atomic b pos []).0 ≡ set_bit b pos
set_bit_atomic_alone b pos =
    let (k, e) = set_bit_atomic-set_bit b pos [] in
    ap (λ r. r.0) e ∙ ap (λ b. set_bit b pos) (none_acted k b)
  where
    none_acted : (k : ℕ) (b : Bitmap) → acted k [] b ≡ b
    none_acted zero b = refl
    none_acted (suc k) b = refl
