-- ===== src/Reader/Streams.antt =====
-- The operations of the standard library's input streams that src/reader.h uses.
use gapbs_bfs_experiment.Base.{
  ℕ, zero, suc, ◌-◌, ◌^◌, Bool, true, false, not, ◌&&◌, ◌||◌, Option, none, some, [], ◌∷◌,
  if◌then◌else◌, ◌==◌, leb, ltb, ℤ, pos, negsuc, sub_ℕ, Text, is_space, is_digit, skip_spaces,
  read_digits,
}

-- What is left to read, failbit and eofbit.
pub record Stream : Type 0 where
  pub rest : Text
  pub failed : Bool
  pub at_end : Bool

unfoldable pub open_stream : Text → Stream
open_stream text = record { rest = text; failed = false; at_end = false }

abbrev pub is_good : Stream → Bool
is_good s = not s.failed && not s.at_end

abbrev pub refuse : Stream → Stream
refuse s = record s { failed = true }

abbrev pub is_empty : Text → Bool
is_empty [] = true
is_empty (c ∷ cs) = false

-- The next character, which is EOF if there is none.
unfoldable pub peek : Stream → Option ℕ × Stream
peek s = if is_good s then next s.rest else (none, refuse s)
  where
    next : Text → Option ℕ × Stream
    next [] = (none, record s { at_end = true })
    next (c ∷ cs) = (some c, s)

-- ignore(n, '\n'), on the text: whether the end was met, and what is left.
unfoldable pub ignore_text : ℕ → Text → Bool × Text
ignore_text zero cs = (false, cs)
ignore_text (suc n) [] = (true, [])
ignore_text (suc n) (c ∷ cs) =
    let later = ignore_text n cs in if c == b'\n' then (false, cs) else later

unfoldable pub ignore_line : ℕ → Stream → Stream
unfolding ignore_text
ignore_line n s =
    let (met_end, left) = ignore_text n s.rest in
    if is_good s then record s { rest = left; at_end = met_end } else refuse s

-- in >> std::ws
unfoldable pub skip_ws : Stream → Stream
unfolding skip_spaces
skip_ws s =
    let left = skip_spaces s.rest in
    if s.failed then s else record s { rest = left; at_end = s.at_end || is_empty left }

-- The line in front, whether the end was met before its '\n', and what is left.
unfoldable pub line_of : Text → Text × Bool × Text
line_of [] = ([], true, [])
line_of (c ∷ cs) =
    let (line, met_end, left) = line_of cs in
    if c == b'\n' then ([], false, cs) else (c ∷ line, met_end, left)

unfoldable pub getline : Stream → Text × Stream
unfolding line_of
getline s =
    let (line, met_end, left) = line_of s.rest in
    if not (is_good s)
    then ([], refuse s)
    else if is_empty s.rest
    then ([], record s { failed = true; at_end = true })
    else (line, record s { rest = left; at_end = met_end })

-- The word in front.
unfoldable pub word_of : Text → Text × Text
word_of [] = ([], [])
word_of (c ∷ cs) =
    let later = word_of cs in if is_space c then ([], c ∷ cs) else (c ∷ later.0, later.1)

-- in >> s for a string.
unfoldable pub read_word : Stream → Text × Stream
unfolding skip_spaces word_of
read_word s =
    let (word, left) = word_of (skip_spaces s.rest) in
    if is_good s
    then (word, record s { rest = left; failed = is_empty word; at_end = is_empty left })
    else ([], refuse s)

-- in >> c for a character.
unfoldable pub read_char : Stream → Stream
unfolding skip_spaces
read_char s = if is_good s then next (skip_spaces s.rest) else refuse s
  where
    next : Text → Stream
    next [] = record s { rest = []; failed = true; at_end = true }
    next (c ∷ cs) = record s { rest = cs }

-- The sign in front, and what is behind it.
abbrev pub sign_of : Text → Bool × Text
sign_of [] = (false, [])
sign_of (c ∷ cs) =
    if c == b'-' then (true, cs) else if c == b'+' then (false, cs) else (false, c ∷ cs)

abbrev pub starts_digit : Text → Bool
starts_digit [] = false
starts_digit (c ∷ cs) = is_digit c

-- A number with this sign and size, cut to the signed integers of `bits + 1` bits, and whether it
-- was one of them.
abbrev pub fit_signed : ℕ → Bool → ℕ → ℤ × Bool
fit_signed bits true n =
    if leb n (2 ^ bits) then (sub_ℕ 0 n, true) else (negsuc (2 ^ bits - 1), false)
fit_signed bits false n = if ltb n (2 ^ bits) then (pos n, true) else (pos (2 ^ bits - 1), false)

-- in >> n for a signed integer of `bits + 1` bits. A stream that is not good leaves `old`.
unfoldable pub read_int : ℕ → ℤ → Stream → ℤ × Stream
unfolding skip_spaces read_digits
read_int bits old s =
    let text = skip_spaces s.rest in
    let (minus, digits) = sign_of text in
    let (size, left) = read_digits 0 digits in
    let (value, in_range) = fit_signed bits minus size in
    if not (is_good s)
    then (old, refuse s)
    else if is_empty text
    then (old, record s { rest = []; failed = true; at_end = true })
    else if starts_digit digits
    then (value, record s { rest = left; failed = not in_range; at_end = is_empty left })
    else (pos 0, record s { rest = digits; failed = true; at_end = is_empty digits })
