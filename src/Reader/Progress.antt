-- ===== src/Reader/Progress.antt =====
-- The loops of src/reader.h on any text: those of ReadInEL and ReadInWEL end, and that of ReadInGR does
-- not end once the stream has failed before its end.
use gapbs_bfs_experiment.Base.{
  ℕ, zero, suc, ◌+◌, ◌*◌, ◌-◌, ◌≤◌, ◌<◌, ◌≡◌, refl, ap, ◌∙◌, arith, true, false, some, none, [],
  ◌∷◌, ◌++◌, length, if◌then◌else◌, Bool-cases, inl, inr, ℤ, pos, Text, skip_spaces, read_digits,
  is_digit, ◌==◌, ◌||◌,
}
use gapbs_bfs_experiment.Reader.Streams.{
  Stream, is_good, is_empty, sign_of, starts_digit, read_int, peek, ignore_line, read_char,
}
use gapbs_bfs_experiment.Reader.{
  Edges, Numbers, read_in_el, read_in_wel, read_in_gr, read_triple, read_node_weight, gr_line,
  read_arc,
}

-- A stream that has failed stays so.
pub read_int-failed :
    (bits : ℕ) (old : ℤ) (s : Stream) → s.failed ≡ true → (read_int bits old s).1.failed ≡ true
unfolding read_int
read_int-failed bits old s bad = rw bad refl

length-skip_spaces : (text : Text) → length (skip_spaces text) ≤ length text
unfolding skip_spaces
length-skip_spaces [] = omega arith
length-skip_spaces (c ∷ cs) = ground (arith, length-skip_spaces cs)

length-sign_of : (text : Text) → length (sign_of text).1 ≤ length text
length-sign_of [] = omega arith
length-sign_of (c ∷ cs) = ground arith

length-read_digits : (acc : ℕ) (text : Text) → length (read_digits acc text).1 ≤ length text
unfolding read_digits
length-read_digits acc [] = omega arith
length-read_digits acc (c ∷ cs) = ground (arith, length-read_digits (acc * 10 + (c - 48)) cs)

digit-shorter :
    (acc : ℕ) (text : Text)
    → starts_digit text ≡ true
    → length (read_digits acc text).1 < length text
unfolding read_digits
digit-shorter acc [] h = cc
digit-shorter acc (c ∷ cs) h = rw h (omega (arith, length-read_digits (acc * 10 + (c - 48)) cs))

-- A number that is read takes characters.
read_int-shorter :
    (bits : ℕ) (old : ℤ) (s : Stream)
    → (read_int bits old s).1.failed ≡ false
    → length (read_int bits old s).1.rest < length s.rest
unfolding read_int
read_int-shorter bits old s h =
    let text = skip_spaces s.rest in
    let digits = (sign_of text).1 in
    elim (Bool-cases (is_good s)) [
      | inr ended ↦ cc (rw ended at h)
      | inl good ↦ elim (Bool-cases (is_empty text)) [
        | inl blank ↦ cc (rw (good, blank) at h)
        | inr more ↦ elim (Bool-cases (starts_digit digits)) [
          | inr other ↦ cc (rw (good, more, other) at h)
          | inl digit ↦
              rw (good, more, digit)
                (omega (
                  arith,
                  length-skip_spaces s.rest,
                  length-sign_of text,
                  digit-shorter 0 digits digit,
                ))
        ]
      ]
    ]

-- A read that does not fail was of a stream that had not.
read_int-Good :
    (bits : ℕ) (old : ℤ) (s : Stream)
    → (read_int bits old s).1.failed ≡ false
    → (s.failed ≡ false) × (length (read_int bits old s).1.rest < length s.rest)
read_int-Good bits old s h = elim (Bool-cases s.failed) [
  | inl bad ↦ cc (read_int-failed bits old s bad)
  | inr good ↦ (good, read_int-shorter bits old s h)
]

module _ {Dest : Type 0} (of_id : ℤ → Dest) (of_weighted : ℤ → ℤ → Dest) where
  read_in_el_ends :
      (fuel : ℕ) (s : Stream) (el : Edges Dest)
      → length s.rest < fuel
      → (edges : Edges Dest) × (read_in_el of_id of_weighted fuel s el ≡ some edges)
  unfolding read_in_el
  read_in_el_ends zero s el enough = absurd (omega arith)
  read_in_el_ends (suc fuel) s el enough =
      let s1 = (read_int 31 (pos 0) s).1 in
      let s2 = (read_int 31 (pos 0) s1).1 in
      let e : ℤ × Dest = ((read_int 31 (pos 0) s).0, of_id (read_int 31 (pos 0) s1).0) in
      elim (Bool-cases s2.failed) [
        | inl bad ↦ (el, rw bad refl)
        | inr good ↦
            let (good1, shorter2) = read_int-Good 31 (pos 0) s1 good in
            let (good0, shorter1) = read_int-Good 31 (pos 0) s good1 in
            let (edges, ends) = read_in_el_ends fuel s2 (el ++ e ∷ []) (omega arith) in
            (edges, rw good ends)
      ]

  read_in_wel_ends :
      (fuel : ℕ) (s : Stream) (el : Edges Dest)
      → length s.rest < fuel
      → (edges : Edges Dest) × (read_in_wel of_id of_weighted fuel s el ≡ some edges)
  unfolding read_in_wel read_triple read_node_weight
  read_in_wel_ends zero s el enough = absurd (omega arith)
  read_in_wel_ends (suc fuel) s el enough =
      let s1 = (read_int 31 (pos 0) s).1 in
      let s2 = (read_int 31 (pos 0) s1).1 in
      let s3 = (read_int 31 (pos 0) s2).1 in
      let to = of_weighted (read_int 31 (pos 0) s1).0 (read_int 31 (pos 0) s2).0 in
      let e : ℤ × Dest = ((read_int 31 (pos 0) s).0, to) in
      elim (Bool-cases s3.failed) [
        | inl bad ↦ (el, rw bad refl)
        | inr good ↦
            let (good2, shorter3) = read_int-Good 31 (pos 0) s2 good in
            let (good1, shorter2) = read_int-Good 31 (pos 0) s1 good2 in
            let (good0, shorter1) = read_int-Good 31 (pos 0) s good1 in
            let (edges, ends) = read_in_wel_ends fuel s3 (el ++ e ∷ []) (omega arith) in
            (edges, rw good ends)
      ]

  -- On any text, whatever it holds, the loops of ReadInEL and of ReadInWEL end within as many rounds
  -- as the text has characters, and one more.
  pub read_edges_end :
      (fuel : ℕ) (s : Stream)
      → length s.rest < fuel
      → ((edges : Edges Dest) × (read_in_el of_id of_weighted fuel s [] ≡ some edges))
        × ((edges : Edges Dest) × (read_in_wel of_id of_weighted fuel s [] ≡ some edges))
  read_edges_end fuel s enough =
      (read_in_el_ends fuel s [] enough, read_in_wel_ends fuel s [] enough)

  gr_line-failed :
      (old : Numbers) (s : Stream) (el : Edges Dest)
      → s.failed ≡ true
      → ((gr_line of_id of_weighted old s el).1.failed ≡ true)
        × ((gr_line of_id of_weighted old s el).1.at_end ≡ s.at_end)
  unfolding gr_line peek ignore_line
  gr_line-failed old s el bad = (rw bad refl, rw bad refl)

  failed_never_ends :
      (fuel : ℕ) (old : Numbers) (s : Stream) (el : Edges Dest)
      → s.failed ≡ true
      → s.at_end ≡ false
      → read_in_gr of_id of_weighted fuel old s el ≡ none
  unfolding read_in_gr
  failed_never_ends zero old s el bad early = refl
  failed_never_ends (suc fuel) old s el bad early =
      let (still, same) = gr_line-failed old s el bad in
      let next = gr_line of_id of_weighted old s el in
      let rest = read_in_gr of_id of_weighted fuel next.0 next.1 next.2 in
      ap (λ d. if d then some el else rest) early
      ∙ failed_never_ends fuel next.0 next.1 next.2 still (same ∙ early)

  -- Behind any blanks, a character that starts no number.
  module _ (old : Numbers) (el : Edges Dest) (body text : Text) (c : ℕ)
      (behind : skip_spaces body ≡ c ∷ text) (no_sign : (c == b'-' || c == b'+') ≡ false)
      (no_digit : is_digit c ≡ false) where
    abbrev stopped : Stream
    stopped = record { rest = c ∷ text; failed = true; at_end = false }

    read_int-stopped :
        (n : ℤ)
        → (read_int 31 n (record { rest = body; failed = false; at_end = false })).1 ≡ stopped
    unfolding read_int
    read_int-stopped n =
        let minus : (c == b'-') ≡ false = ground (arith, no_sign) in
        let plus : (c == b'+') ≡ false = ground (arith, no_sign) in
        rw behind (rw (minus, plus) (rw no_digit refl))

    abbrev bad_line : Stream
    bad_line = record { rest = b'a' ∷ body; failed = false; at_end = false }

    read_int-behind : (n : ℤ) → (read_int 31 n stopped).1 ≡ stopped
    unfolding read_int
    read_int-behind n = refl

    read_triple-stopped :
        (read_triple old (record { rest = body; failed = false; at_end = false })).1 ≡ stopped
    unfolding read_triple read_node_weight
    read_triple-stopped = rw (read_int-stopped old.u, read_int-behind old.v) (read_int-behind old.w)

    gr_line-bad_line : (gr_line of_id of_weighted old bad_line el).1 ≡ stopped
    unfolding gr_line peek read_arc read_char skip_spaces
    gr_line-bad_line = read_triple-stopped

    -- On a good stream that stands at a line of 'a' and then, behind any blanks, a character that starts no
    -- number, the loop of ReadInGR never ends: the line fails, and no later round reads a character or
    -- meets the end.
    pub read_in_gr_never_ends :
        (fuel : ℕ) → read_in_gr of_id of_weighted fuel old bad_line el ≡ none
    unfolding read_in_gr
    read_in_gr_never_ends zero = refl
    read_in_gr_never_ends (suc fuel) =
        let next = gr_line of_id of_weighted old bad_line el in
        failed_never_ends fuel next.0 next.1 next.2 (ap (λ t. t.failed) gr_line-bad_line)
          (ap (λ t. t.at_end) gr_line-bad_line)
