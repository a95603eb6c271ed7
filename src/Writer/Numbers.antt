-- ===== src/Writer/Numbers.antt =====
-- Decimal numbers that are written (src/writer.h) read back (src/reader.h).
use gapbs_bfs_experiment.Base.{
  ℕ, zero, suc, ◌+◌, ◌*◌, ◌/◌, ◌%◌, ◌^◌, ◌<◌, ◌≡◌, refl, sym, ap, ◌∙◌, arith, true, false, [], ◌∷◌,
  ◌++◌, ◌==◌, ltb, lt→ltb, Bool-cases, inl, inr, ℤ, pos, Text, is_digit, skip_spaces, read_digits,
  digits_onto, decimal,
}
use gapbs_bfs_experiment.Reader.Streams.{Stream, is_good, sign_of, read_int}

-- One digit.
read_digits-digit :
    (acc d : ℕ) (rest : Text)
    → d < 10
    → read_digits acc ((48 + d) ∷ rest) ≡ read_digits (acc * 10 + d) rest
unfolding read_digits
read_digits-digit acc d rest h =
    let digit : is_digit (48 + d) ≡ true = ground arith in
    rw digit (ap (λ m. read_digits m rest) (omega arith))

-- The digits in front of other text are read to the number.
read_digits-digits_onto :
    (fuel n : ℕ) (rest : Text)
    → n < fuel
    → read_digits 0 (digits_onto fuel n rest) ≡ read_digits n rest
unfolding digits_onto
read_digits-digits_onto zero n rest h = absurd (omega arith)
read_digits-digits_onto (suc fuel) n rest h = elim (Bool-cases (n / 10 == 0)) [
  | inl small ↦ rw small (
      read_digits-digit 0 (n % 10) rest (omega arith) ∙ ap (λ m. read_digits m rest) (ground arith))
  | inr large ↦ rw large (
      read_digits-digits_onto fuel (n / 10) ((48 + n % 10) ∷ rest) (ground arith)
      ∙ read_digits-digit (n / 10) (n % 10) rest (omega arith)
      ∙ ap (λ m. read_digits m rest) (omega arith))
]

-- They start with a digit.
digits_onto-first :
    (fuel n : ℕ) (rest : Text)
    → n < fuel
    → (c : ℕ) × (cs : Text) × (digits_onto fuel n rest ≡ c ∷ cs) × (is_digit c ≡ true)
unfolding digits_onto
digits_onto-first zero n rest h = absurd (omega arith)
digits_onto-first (suc fuel) n rest h = elim (Bool-cases (n / 10 == 0)) [
  | inl small ↦ (48 + n % 10, rest, rw small refl, ground arith)
  | inr large ↦
      let (c, cs, same, digit) =
        digits_onto-first fuel (n / 10) ((48 + n % 10) ∷ rest) (ground arith) in
      (c, cs, rw large same, digit)
]

digits_onto-append :
    (fuel n : ℕ) (xs ys : Text) → digits_onto fuel n xs ++ ys ≡ digits_onto fuel n (xs ++ ys)
unfolding digits_onto
digits_onto-append zero n xs ys = refl
digits_onto-append (suc fuel) n xs ys = elim (Bool-cases (n / 10 == 0)) [
  | inl small ↦ rw small refl
  | inr large ↦ rw large (digits_onto-append fuel (n / 10) ((48 + n % 10) ∷ xs) ys)
]

-- A number in front of other text.
record Shown (n : ℕ) (tail text : Text) : Type 0 where
  first : ℕ
  others : Text
  starts : text ≡ first ∷ others
  digit : is_digit first ≡ true
  value : read_digits 0 text ≡ read_digits n tail

decimal-Shown : (n : ℕ) (tail : Text) → Shown n tail (decimal n ++ tail)
unfolding decimal
decimal-Shown n tail =
    let onto = digits_onto-append (suc n) n [] tail in
    let (c, cs, same, digit) = digits_onto-first (suc n) n tail (omega arith) in
    record {
      first = c;
      others = cs;
      starts = onto ∙ same;
      digit = digit;
      value = ap (read_digits 0) onto ∙ read_digits-digits_onto (suc n) n tail (omega arith);
    }

skip_spaces-digit : (c : ℕ) (cs : Text) → is_digit c ≡ true → skip_spaces (c ∷ cs) ≡ c ∷ cs
unfolding skip_spaces
skip_spaces-digit c cs h = ground arith

pub skip_spaces-decimal :
    (n : ℕ) (tail : Text) → skip_spaces (decimal n ++ tail) ≡ decimal n ++ tail
skip_spaces-decimal n tail =
    let d = decimal-Shown n tail in rw d.starts (skip_spaces-digit d.first d.others d.digit)

read_digits-stop : (n c : ℕ) (cs : Text) → is_digit c ≡ false → read_digits n (c ∷ cs) ≡ (n, c ∷ cs)
unfolding read_digits
read_digits-stop n c cs h = rw h refl

-- The stream behind a number.
abbrev pub left_at : Text → Stream
left_at text = record { rest = text; failed = false; at_end = false }

pub read_int-decimal :
    (n c : ℕ) (cs : Text) (old : ℤ) (s : Stream)
    → is_good s ≡ true
    → skip_spaces s.rest ≡ decimal n ++ c ∷ cs
    → n < 2 ^ 31
    → is_digit c ≡ false
    → read_int 31 old s ≡ (pos n, left_at (c ∷ cs))
unfolding read_int
read_int-decimal n c cs old s good text fits other =
    let d = decimal-Shown n (c ∷ cs) in
    let front = text ∙ d.starts in
    let size : read_digits 0 (d.first ∷ d.others) ≡ (n, c ∷ cs) =
      ap (read_digits 0) (sym d.starts) ∙ d.value ∙ read_digits-stop n c cs other in
    let no_sign : sign_of (d.first ∷ d.others) ≡ (false, d.first ∷ d.others) =
      ground (arith, d.digit) in
    let below : ltb n (2 ^ 31) ≡ true = lt→ltb n (2 ^ 31) fits in
    rw front (rw no_sign (rw size (rw (good, d.digit) (rw below refl))))
